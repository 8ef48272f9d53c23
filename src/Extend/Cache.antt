-- ===== src/Extend/Cache.antt =====
-- The cache of extend.c: what was learnt about an address is kept in a pool under a key that is
-- made of the address. serialize_addr, eq_bitlen, cache_get and cache_add; the clock is given.
pub mod Bitlen
pub mod Entries
use byedpi.Prelude.{
  ℕ, zero, suc, ◌+◌, ◌-◌, ◌*◌, ◌/◌, ◌%◌, ◌&&◌, Bool, true, false, Option, none, some, List, [], ◌∷◌,
  Bytes, read, length, ltb, ◌==◌, ◌!=◌, if◌then◌else◌, ◌>>=◌,
}
use byedpi.Prelude.Word.{Word}
use byedpi.Net.{Addr, Family, inet, inet6, is_inet}
use byedpi.Mpool.{Elem, shift_char}
use byedpi.Mpool.Pool.{Item, Kavl, Mphdr, mem_get, mem_delete, mem_add}
use byedpi.Conev.Events.{set_at}

-- The bytes of a struct cache_key, as many as the family has: AF_INET is 2 and AF_INET6 10. The
-- length that serialize_addr returns is that of the list.
unfoldable pub serialize_addr : Addr → Bytes
serialize_addr dst =
    if is_inet dst.family
    then 2 ∷ 0 ∷ (dst.port % 256) ∷ (dst.port / 256 % 256) ∷ dst.v4
    else 10 ∷ 0 ∷ (dst.port % 256) ∷ (dst.port / 256 % 256) ∷ dst.v6

-- for (; by < n && a[by] == b[by]; by++), with `left` bytes before `n`.
unfoldable pub eq_bytes : ℕ → Bytes → Bytes → ℕ → Option ℕ
eq_bytes zero a b by = some by
eq_bytes (suc left) a b by = do
  x ← read a by
  y ← read b by
  if x == y then eq_bytes left a b (by + 1) else some by

-- for (; bi < 8 && (a[by] >> bi) != (b[by] >> bi); bi++). Shifts of two `char`s are equal exactly
-- when their low bytes are.
unfoldable pub eq_bits : ℕ → ℕ → ℕ → ℕ → ℕ
eq_bits zero x y bi = bi
eq_bits (suc left) x y bi =
    let rest = eq_bits left x y (bi + 1) in if shift_char x bi == shift_char y bi then bi else rest

unfoldable pub eq_bitlen : Bytes → Bytes → ℕ → Option ℕ
eq_bitlen a b n = do
  by ← eq_bytes n a b 0
  if by == n
      then some (by * 8 + 8)
      else (do x ← read a by; y ← read b by; some (by * 8 + 8 - eq_bits 8 x y 0))

-- What a struct elem_i has besides its element; `dp` is the id of a group.
pub record Info : Type 0 where
  pub extra : Option Bytes
  pub dp_mask : Word
  pub dp : Option ℕ
  pub detect : ℕ
  pub time : ℕ

-- params.mempool, with what each of its elements has by its address.
pub record Cache (T : Type 0) : Type 0 where
  pub hdr : Mphdr T
  pub info : ℕ → Info

-- From calloc.
abbrev pub no_info : Word → Info
no_info zeros = record { extra = none; dp_mask = zeros; dp = none; detect = 0; time = 0 }

-- dp->cache_ttl && t > val->time + dp->cache_ttl
abbrev pub expired : ℕ → ℕ → ℕ → Bool
expired ttl time t = ttl != 0 && ltb (time + ttl) t

abbrev pub shared_with : Bytes → Option Item → Option ℕ
shared_with key none = some (length key * 8)
shared_with key (some val) = eq_bitlen key val.elem.body (length key)

abbrev pub is_some : Option Bytes → Bool
is_some none = false
is_some (some x) = true

-- The entry that mem_add gives gets the time, and the name of the host if it has none; what is
-- left of `*host` comes back.
abbrev pub stamped : Info → ℕ → Option Bytes → Info × Option Bytes
stamped i t host =
    if is_some i.extra
    then (record i { time = t }, host)
    else (record i { time = t; extra = host }, none)

module _ {T : Type 0} (k : Kavl T) where
  -- What becomes of the entry that was found; `cache_ttl` is that of a group by its id, and `t` the
  -- time. `none` reads through a null `dp`.
  abbrev pub checked : Cache T → (ℕ → ℕ) → ℕ → Bytes → Option Item → Option (Option Item × Cache T)
  checked c cache_ttl t key none = some (none, c)
  checked c cache_ttl t key (some val) = do
    dp ← (c.info val.at).dp
    if expired (cache_ttl dp) (c.info val.at).time t
        then some
            (none, record c { hdr = mem_delete k c.hdr (record { len = length key; body = key }) })
        else some (some val, c)

  unfoldable pub cache_get : Cache T → (ℕ → ℕ) → ℕ → Addr → Option (Option Item × Cache T)
  unfolding serialize_addr
  cache_get c cache_ttl t dst =
      let key = serialize_addr dst in
      checked c cache_ttl t key (mem_get k c.hdr (record { len = length key * 8; body = key }))

  -- The length that two keys share, where addresses are grouped by their front.
  unfoldable pub shared_len : Cache T → ℕ → Addr → Option ℕ
  unfolding serialize_addr
  shared_len c cache_pre dst =
      let key = serialize_addr dst in
      if is_inet dst.family && cache_pre != 0
      then shared_with key
          (mem_get k c.hdr (record { len = length key * 8 - cache_pre; body = key }))
      else some (length key * 8)

  -- `at` is what calloc gives for the new element.
  unfoldable pub cache_add :
      ℕ → Word → Cache T → ℕ → ℕ → ℕ → Addr → Option Bytes → Option (Item × Cache T × Option Bytes)
  unfolding shared_len serialize_addr
  cache_add fuel zeros c cache_pre t at dst host = do
    cmp_len ← shared_len c cache_pre dst
    (val, hdr) ←
        mem_add k fuel c.hdr
          (record { at = at; elem = record { len = cmp_len; body = serialize_addr dst } })
    let info = set_at c.info at (no_info zeros)
    let (i, host') = stamped (info val.at) t host
    some (val, record { hdr = hdr; info = set_at info val.at i }, host')
