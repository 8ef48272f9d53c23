-- ===== src/Extend/Recover.antt =====
-- What extend.c does when a connection shows signs of a filter: on_trigger with the cache and the
-- order of the groups, reconnect, on_torst, on_fin, on_timeout and on_connerr. connect_hook is a
-- parameter, as is the clock.
pub mod Marked
pub mod Chosen
use byedpi.Prelude.{
  ℕ, zero, suc, ◌+◌, ◌&&◌, ◌||◌, not, Bool, true, false, Option, none, some, List, [], ◌∷◌, Bytes,
  map, has, ltb, leb, ◌==◌, ◌!=◌, if◌then◌else◌, ◌>>=◌,
}
use byedpi.Prelude.Int.{ℤ, pos, negsuc, ◌-ℤ◌, ltb_ℤ}
use byedpi.Prelude.Word.{Word, meets, or_word}
use byedpi.Net.{Addr}
use byedpi.Mpool.Pool.{Item, Kavl}
use byedpi.Conev.Events.{set_at}
use byedpi.Extend.Filter.{Group}
use byedpi.Extend.Hooks.{Side}
use byedpi.Extend.Trigger.{next_loop, can_reconnect, auto_noreconn, detect_tls_err}
use byedpi.Extend.Cache.{Info, Cache, cache_add}
use byedpi.Extend.Swop.{Groups, swop_groups}

abbrev pub auto_sort : ℕ
auto_sort = 4

abbrev pub detect_torst : ℕ
detect_torst = 8

abbrev pub detect_connect : ℕ
detect_connect = 16

-- params, as far as it changes here: the cache, the list of groups, and their counters. `rest` has
-- what does not change of each group.
pub record World (T : Type 0) : Type 0 where
  pub cache : Cache T
  pub groups : Groups
  pub fail_count : ℕ → ℕ
  pub pri : ℕ → ℕ
  pub rest : ℕ → Group

-- struct eval of the client, `lav`: `dp` is the id of its group, and `buff` its buffer up to the
-- lock, with the offset.
pub record Client : Type 0 where
  pub dp : ℕ
  pub dp_mask : Word
  pub detect : ℕ
  pub host : Option Bytes
  pub buff : Option (Bytes × ℕ)
  pub side : Side

-- struct eval of the server, `val`.
pub record Server : Type 0 where
  pub addr : Addr
  pub recv_count : ℕ
  pub round_count : ℕ
  pub to_count : ℤ

-- What a call needs besides: params.cache_pre, the time, the address of a new element, the bounds
-- of the loops, and a mask without bits.
pub record Setting : Type 0 where
  pub cache_pre : ℕ
  pub now : ℕ
  pub at : ℕ
  pub inserts : ℕ
  pub dp_n : ℕ
  pub zeros : Word

abbrev pub group_at : {T : Type 0} → World T → ℕ → Group
group_at w i = record (w.rest i) {
  id = i;
  detect = w.groups.detect i;
  auto_level = w.groups.auto_level i;
}

-- dp = dp->next, from `dp` on.
unfoldable pub walk : ℕ → Groups → Option ℕ → List ℕ
walk zero g dp = []
walk (suc fuel) g none = []
walk (suc fuel) g (some i) = i ∷ walk fuel g (g.next i)

-- reconnect: the saved request is to be sent again. It returns 0 when connect_hook does.
unfoldable pub reconnect : (Client → Bool × Client) → Client → Bool × Client
reconnect connect_hook client =
    let buff : Option (Bytes × ℕ) = elim client.side.sq_buff [
      | none ↦ client.buff
      | some saved ↦ some (saved, 0)
    ] in
    connect_hook
      (record client { buff = buff; side = record client.side { round_sent = 0; part_sent = 0 } })

module _ {T : Type 0} where
  -- The swop, when the group that failed is the worse one and stands before the next one.
  unfoldable pub sort_groups : World T → Client → Group → Word → Option (World T)
  sort_groups w lav next uncheked =
      if has next.auto_level auto_sort
        && ltb (w.pri next.id) (w.pri lav.dp)
        && not (meets (w.rest lav.dp).bit uncheked)
      then (do groups ← swop_groups w.groups lav.dp next.id; some (record w { groups = groups }))
      else some w

  -- if (!(lav->dp->bit & cache->dp_mask)) { ... }
  unfoldable pub sorted : World T → Client → Option Group → Word → Word → Option (World T)
  unfolding sort_groups
  sorted w lav next uncheked seen = if meets (w.rest lav.dp).bit seen then some w else (do
    w' ← elim next [ none ↦ some w | some n ↦ sort_groups w lav n uncheked ]
    some (record w' { pri = set_at w'.pri lav.dp (w'.pri lav.dp + 1) }))

  abbrev pub write_info : World T → ℕ → Info → World T
  write_info w at i = record w { cache = record w.cache { info = set_at w.cache.info at i } }

  -- What is saved for the address, and whether there is a second connection; `next->auto_level` is
  -- read behind the swop.
  unfoldable pub saved :
      (Client → Bool × Client)
      → World T
      → Client
      → Item
      → Option Group
      → Bool
      → Bool × World T × Client
  unfolding reconnect
  saved connect_hook w lav entry none can_reconn =
      let i = w.cache.info entry.at in
      let empty = record i {
        dp_mask = map (λ b. false) i.dp_mask;
        detect = 0;
        dp = some w.groups.head;
      } in
      (false, write_info w entry.at empty, lav)
  saved connect_hook w lav entry (some next) can_reconn =
      let i = w.cache.info entry.at in
      let full = record i {
        dp_mask = or_word i.dp_mask lav.dp_mask;
        detect = lav.detect;
        dp = some next.id;
      } in
      let w' = write_info w entry.at full in
      if not (has (w.groups.auto_level next.id) auto_noreconn) && can_reconn
      then (let (ok, lav') = reconnect connect_hook lav in (ok, w', lav'))
      else (false, w', lav)

module _ {T : Type 0} (k : Kavl T) (s : Setting) (connect_hook : Client → Bool × Client) where
  -- Whether on_trigger returns 0, and what it leaves.
  unfoldable pub on_trigger :
      ℕ → World T → Client → Server → Bool → Option (Bool × World T × Client)
  on_trigger type w lav val client_alive = do
    (entry, cache, host) ←
        cache_add k s.inserts s.zeros w.cache s.cache_pre s.now s.at val.addr lav.host
    let can_reconn =
        can_reconnect (elim lav.side.sq_buff [ none ↦ false | some x ↦ true ]) lav.side.recv_count
          val.recv_count client_alive
    let start = or_word lav.dp_mask (w.rest lav.dp).bit
    let w1 = record w {
      cache = cache;
      fail_count = set_at w.fail_count lav.dp (w.fail_count lav.dp + 1);
    }
    let found =
        next_loop (map (group_at w) (walk s.dp_n w.groups (some w.groups.head))) type can_reconn
          start start
    let lav1 = record lav { dp_mask = found.2; detect = type; host = host }
    w2 ← sorted w1 lav1 found.0 found.1 (cache.info entry.at).dp_mask
    some (saved connect_hook w2 lav1 entry found.0 can_reconn)

  -- The linger option that on_torst sets when there is no second connection is left out.
  unfoldable pub on_torst : World T → Client → Server → Option (Bool × World T × Client)
  on_torst w lav val = on_trigger detect_torst w lav val true

  unfoldable pub on_connerr : World T → Client → Server → Option (Bool × World T × Client)
  on_connerr w lav val = on_trigger detect_connect w lav val true

  -- on_fin at the client's side or the server's; `val` is the server, which may be gone.
  unfoldable pub on_fin : Bool → World T → Client → Option Server → Option (Bool × World T × Client)
  on_fin is_client w lav none = some (false, w, lav)
  on_fin is_client w lav (some val) =
      if not (lav.side.mark && leb val.round_count 1)
      then some (false, w, lav)
      else on_trigger detect_tls_err w lav val (not is_client)

  -- Besides, whether set_timer is called.
  unfoldable pub on_timeout :
      ℕ → World T → Client → Server → Option (Bool × Bool × Server × World T × Client)
  on_timeout to_count_lim w lav val =
      let count = val.to_count -ℤ negsuc 0 in
      let val' = record val { to_count = count } in
      if not (ltb_ℤ count (pos to_count_lim))
      then (do (ok, w', lav') ← on_torst w lav val'; some (ok, false, val', w', lav'))
      else some (true, true, val', w, lav)
