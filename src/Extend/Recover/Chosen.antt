-- ===== src/Extend/Recover/Chosen.antt =====
-- What on_trigger of extend.c leaves: the order of the groups, and what is saved for the address.
use byedpi.Prelude.{ℕ, ◌≡◌, ◌⊎◌, Bool, true, false, Option, none, some, List, map}
use byedpi.Prelude.Word.{Word, meets, or_word}
use byedpi.Mpool.Pool.{Item, Kavl}
use byedpi.Mpool.Pool.Owned.{Tree}
use byedpi.Extend.Groups.{In}
use byedpi.Extend.Filter.{Group}
use byedpi.Extend.Trigger.{next_loop, can_reconnect}
use byedpi.Extend.Cache.{Cache}
use byedpi.Extend.Swop.{Groups}
use byedpi.Extend.Swop.Order.{Lists, Before}
use byedpi.Extend.Swop.Places.{exchange}
use byedpi.Extend.Recover.{World, Client, Server, Setting, group_at}

-- The list is as it was, or `c` and a group behind it have changed places.
abbrev pub Sorts : Groups → List ℕ → ℕ → Groups → Type 0
Sorts g xs c g' = (g' ≡ g) ⊎ ((n : ℕ) × Before c n xs × Lists g' (map (exchange c n) xs))

-- No other group of the list shares a bit with `c`.
abbrev pub Alone : {T : Type 0} → World T → List ℕ → ℕ → Type 0
Alone w xs c = (j : ℕ) → In j xs → meets (w.rest j).bit (w.rest c).bit ≡ true → j ≡ c

module _ {T : Type 0} (w : World T) (lav : Client) (xs : List ℕ) (l : Lists w.groups xs)
    (alone : Alone w xs lav.dp) where
  -- The world afterwards has the same cache and the groups in one of the two orders.
  abbrev Sorted : World T → Type 0
  Sorted w' = (w'.cache ≡ w.cache) × Sorts w.groups xs lav.dp w'.groups

module _ {T : Type 0} (connect_hook : Client → Bool × Client) (xs : List ℕ) (entry : Item) where
  -- The entry names the next group, with the event, or the first group where there is no next one.
  abbrev pub Names : World T → Client → Option Group → Type 0
  Names w lav none = (In w.groups.head xs) × ((w.cache.info entry.at).dp ≡ some w.groups.head)
  Names w lav (some g) =
      In g.id xs
      × ((w.cache.info entry.at).dp ≡ some g.id)
      × ((w.cache.info entry.at).detect ≡ lav.detect)

  abbrev Saves : World T → Client → Option Group → Bool → Bool × World T × Client → Type 0
  Saves w lav next can_reconn (ok, w', lav') =
      Names w' lav next
      × (w'.groups ≡ w.groups)
      × (w'.cache.hdr ≡ w.cache.hdr)
      × (ok ≡ true → can_reconn ≡ true)

module _ {T : Type 0} (k : Kavl T) (tr : Tree k) (s : Setting)
    (connect_hook : Client → Bool × Client) where
  -- The next group: the first one from the head on that on_trigger's search takes.
  abbrev pub next_of : ℕ → World T → Client → Server → Bool → List ℕ → Option Group
  next_of type w lav val client_alive xs =
      let start = or_word lav.dp_mask (w.rest lav.dp).bit in
      (next_loop (map (group_at w) xs) type
        (can_reconnect (elim lav.side.sq_buff [ none ↦ false | some x ↦ true ]) lav.side.recv_count
          val.recv_count client_alive)
        start start).0
