-- ===== src/Extend/Cache/Entries.antt =====
-- Entries of the cache of extend.c: which are given, which are deleted, and what a new one takes over.
use byedpi.Prelude.{
  ℕ, ◌+◌, ◌-◌, ◌*◌, ◌≤◌, ◌<◌, ◌≡◌, ◌≢◌, ◌⊎◌, inl, inr, refl, ap, ◌∙◌, true, false, Option, none,
  some, arith, Bytes, length, Returns, Bool-cases, ◌&&◌, ◌!=◌, ltb,
}
use byedpi.Prelude.Word.{Word}
use byedpi.Net.{Addr, inet, is_inet}
use byedpi.Mpool.{Elem, same, bit_cmp}
use byedpi.Mpool.Prefix.{AreBytes}
use byedpi.Mpool.Pool.{Item, Kavl, mem_get, mem_delete}
use byedpi.Mpool.Pool.Owned.{Tree, IsValid, Moves, Added, mem_delete-Moves, mem_add-Added}
use byedpi.Conev.Events.{set_at}
use byedpi.Extend.Cache.{
  serialize_addr, Info, Cache, no_info, expired, checked, cache_get, shared_with, shared_len,
  stamped, cache_add,
}
use byedpi.Extend.Cache.Bitlen.{eq_bitlen-SamePrefix}

-- The key by which an expired entry is deleted has as many bits as the address has bytes.
abbrev pub stale_key : Addr → Elem
stale_key dst = record { len = length (serialize_addr dst); body = serialize_addr dst }

stale_key-same :
    (dst other : Addr) (len : ℕ)
    → dst.family ≡ inet
    → other.family ≡ inet
    → length dst.v4 ≡ 4
    → 8 ≤ len
    → bit_cmp (stale_key dst) (record { len = len; body = serialize_addr other }) ≡ some same
unfolding serialize_addr bit_cmp
stale_key-same dst other len f g h l =
    let shorter : ltb len 8 ≡ false = ground arith in rw (f, g, h, shorter) refl

at_most : (r m : ℕ) {P Q R : Type 0} → (P × (r ≡ m + 8)) ⊎ ((r < m) × Q × R) → r ≤ m + 8
at_most r m (inl (p, e)) = omega arith
at_most r m (inr (l, q, w)) = omega arith

module _ {T : Type 0} (k : Kavl T) (tr : Tree k) where
  -- The entry of the whole key.
  abbrev pub entry : Cache T → Addr → Option Item
  entry c dst =
      mem_get k c.hdr (record { len = length (serialize_addr dst) * 8; body = serialize_addr dst })

  abbrev pub Given : Cache T → (ℕ → ℕ) → ℕ → Addr → Option Item × Cache T → Type 0
  Given c cache_ttl t dst (none, c') =
      (entry c dst ≡ none × (c' ≡ c))
      ⊎ ((val : Item) × (dp : ℕ) × (entry c dst ≡ some val)
          × ((c.info val.at).dp ≡ some dp)
          × (expired (cache_ttl dp) (c.info val.at).time t ≡ true)
          × (c'.hdr ≡ mem_delete k c.hdr (stale_key dst)))
  Given c cache_ttl t dst (some val, c') =
      (entry c dst ≡ some val)
      × (c' ≡ c)
      × ((dp : ℕ) × ((c.info val.at).dp ≡ some dp)
          × (expired (cache_ttl dp) (c.info val.at).time t ≡ false))

  -- If the entry of an address, where there is one, has a group, then cache_get goes through no null
  -- pointer. It gives the entry and changes nothing when that has not expired; otherwise it gives
  -- none, and either there is no entry and nothing changes, or it has expired and elements are deleted by the
  -- stale key. The count of the pool stays right, and no element is lost or freed twice.
  pub cache_get-Given :
      (c : Cache T) (cache_ttl : ℕ → ℕ) (t : ℕ) (dst : Addr)
      → IsValid k tr c.hdr
      → ((val : Item) → entry c dst ≡ some val → (dp : ℕ) × ((c.info val.at).dp ≡ some dp))
      → Returns
          (cache_get k c cache_ttl t dst)
          (λ r. Given c cache_ttl t dst r × IsValid k tr r.1.hdr × Moves k tr c.hdr r.1.hdr)
  unfolding cache_get
  cache_get-Given c cache_ttl t dst v g = go (entry c dst) refl
    where
      go :
          (o : Option Item)
          → entry c dst ≡ o
          → Returns
              (checked k c cache_ttl t (serialize_addr dst) o)
              (λ r. Given c cache_ttl t dst r × IsValid k tr r.1.hdr × Moves k tr c.hdr r.1.hdr)
      go none e = (_, refl, (inl (e, refl), v, λ a. refl))
      go (some val) e =
          let (dp, q) = g val e in
          rw q (elim (Bool-cases (expired (cache_ttl dp) (c.info val.at).time t)) [
            | inl y ↦
                let (v', m) = mem_delete-Moves k tr c.hdr (stale_key dst) v in
                rw y (_, refl, (inr (val, dp, e, q, y, refl), v', m))
            | inr n ↦ rw n (_, refl, ((e, refl, (dp, q, n)), v, λ a. refl))
          ])

  -- When the entry of an IPv4 address has expired, cache_get gives none and deletes by a key that
  -- bit_cmp calls the same as the key, of any length from 8 bits on, of every other IPv4 address.
  pub cache_get-stale :
      (c : Cache T) (cache_ttl : ℕ → ℕ) (t : ℕ) (dst : Addr) (val : Item) (dp : ℕ)
      → dst.family ≡ inet
      → length dst.v4 ≡ 4
      → entry c dst ≡ some val
      → (c.info val.at).dp ≡ some dp
      → expired (cache_ttl dp) (c.info val.at).time t ≡ true
      → Returns (cache_get k c cache_ttl t dst) (λ r.
        (r.0 ≡ none)
        × ((key : Elem) × (r.1.hdr ≡ mem_delete k c.hdr key)
            × ((other : Addr) (len : ℕ)
                → other.family ≡ inet
                → 8 ≤ len
                → bit_cmp key (record { len = len; body = serialize_addr other }) ≡ some same)))
  unfolding cache_get
  cache_get-stale c cache_ttl t dst val dp f n e d x = rw e (
      rw d (
        rw x (
          _,
          refl,
          (refl, (stale_key dst, refl, λ other len g l. stale_key-same dst other len f g n l)),
        )))

  -- The name of the host goes to the entry that has none, and else it stays with the caller.
  abbrev pub Takes : Option Bytes → Option Bytes → Option Bytes × Option Bytes → Type 0
  Takes old host (kept, left) =
      ((old ≡ none) × (kept ≡ host) × (left ≡ none)) ⊎ ((old ≢ none) × (kept ≡ old) × (left ≡ host))

  stamped-Takes :
      (i : Info) (t : ℕ) (host : Option Bytes)
      → let r = stamped i t host in
        (r.0.time ≡ t) × (r.0.dp ≡ i.dp) × Takes i.extra host (r.0.extra, r.1)
  stamped-Takes i t host = go i.extra refl
    where
      go :
          (o : Option Bytes)
          → i.extra ≡ o
          → let r = stamped i t host in
            (r.0.time ≡ t) × (r.0.dp ≡ i.dp) × Takes i.extra host (r.0.extra, r.1)
      go none e = rw e (refl, refl, inl (refl, refl, refl))
      go (some x) e = rw e (refl, refl, inr ((λ q. cc), refl, refl))

  -- The data of an entry that shares the front of a key is as long as the key.
  abbrev pub Long : Cache T → ℕ → Addr → Type 0
  Long c cache_pre dst =
      (val : Item)
      → mem_get k c.hdr
          (record { len = length (serialize_addr dst) * 8 - cache_pre; body = serialize_addr dst })
        ≡ some val
      → (length (serialize_addr dst) ≤ length val.elem.body) × AreBytes val.elem.body

  shared_len-Returns :
      (c : Cache T) (cache_pre : ℕ) (dst : Addr)
      → AreBytes (serialize_addr dst)
      → Long c cache_pre dst
      → Returns (shared_len k c cache_pre dst) (λ len. len ≤ 8 * length (serialize_addr dst) + 8)
  unfolding shared_len
  shared_len-Returns c cache_pre dst b h =
      elim (Bool-cases (is_inet dst.family && cache_pre != 0)) [
        | inl y ↦ rw y (go _ refl)
        | inr n ↦ rw n (_, refl, omega arith)
      ]
    where
      go :
          (o : Option Item)
          → mem_get k c.hdr (record {
            len = length (serialize_addr dst) * 8 - cache_pre;
            body = serialize_addr dst;
          })
            ≡ o
          → Returns
              (shared_with (serialize_addr dst) o)
              (λ len. len ≤ 8 * length (serialize_addr dst) + 8)
      go none e = (_, refl, omega arith)
      go (some val) e =
          let (l, q) = h val e in
          let (r, w, f) =
            eq_bitlen-SamePrefix (serialize_addr dst) val.elem.body (length (serialize_addr dst))
              (omega arith) l b q in
          (r, w, at_most r (8 * length (serialize_addr dst)) f)

  -- If the pool's count is right, and an entry that shares the front of the key is as long as the
  -- key, cache_add ends without a read outside either. The entry that it gives is in the pool, has
  -- the time, and gets the name unless it has one, in which case the name stays with the caller. Other
  -- entries keep what they have, the count is right, and no element is lost or freed twice.
  pub cache_add-Added :
      (fuel : ℕ) (zeros : Word) (c : Cache T) (cache_pre t at : ℕ) (dst : Addr)
      (host : Option Bytes)
      → IsValid k tr c.hdr
      → length (tr.items c.hdr.root) < fuel
      → AreBytes (serialize_addr dst)
      → Long c cache_pre dst
      → Returns (cache_add k fuel zeros c cache_pre t at dst host) (λ (val, c', host').
        ((len : ℕ) × (len ≤ 8 * length (serialize_addr dst) + 8)
          × Added k tr
              (record { at = at; elem = record { len = len; body = serialize_addr dst } })
              c.hdr
              (val, c'.hdr))
        × ((c'.info val.at).time ≡ t)
        × Takes (set_at c.info at (no_info zeros) val.at).extra host ((c'.info val.at).extra, host')
        × ((a : ℕ) → a ≢ val.at → a ≢ at → c'.info a ≡ c.info a))
  unfolding cache_add
  cache_add-Added fuel zeros c cache_pre t at dst host v f b h =
      let (len, e, l) = shared_len-Returns c cache_pre dst b h in
      let item : Item = record {
        at = at;
        elem = record { len = len; body = serialize_addr dst };
      } in
      let ((val, hdr), e', d) = mem_add-Added k tr fuel c.hdr item v f in
      let fresh = set_at c.info at (no_info zeros) in
      let (x, y, z) = stamped-Takes (fresh val.at) t host in
      rw (e, e')
        (
          _,
          refl,
          (
            (len, l, d),
            ap (λ (i : Info). i.time) (self fresh val.at _) ∙ x,
            rw (self fresh val.at _) z,
            λ a n m. others fresh val.at _ a n ∙ others c.info at _ a m,
          ),
        )
    where
      self : (g : ℕ → Info) (i : ℕ) (w : Info) → set_at g i w i ≡ w
      self g i w = ground arith

      others : (g : ℕ → Info) (i : ℕ) (w : Info) (a : ℕ) → a ≢ i → set_at g i w a ≡ g a
      others g i w a n = ground arith
