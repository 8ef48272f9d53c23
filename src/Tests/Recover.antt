-- ===== src/Tests/Recover.antt =====
-- The cache, the order of the groups and on_trigger at concrete values.
use mathlib.Core.Option.{some-injective}
use byedpi.Prelude.{
  ℕ, zero, suc, ◌+◌, ◌-◌, ◌*◌, ◌≤◌, ◌<◌, ◌≡◌, ◌≢◌, ◌⊎◌, subst, inl, inr, refl, true, false, Option,
  none, some, List, [], ◌∷◌, Bytes, map, arith, length, Returns,
}
use byedpi.Prelude.Int.{pos}
use byedpi.Prelude.Word.{Word}
use byedpi.Net.{Addr, inet}
use byedpi.Mpool.{Elem, same, cmp_bits, bit_cmp}
use byedpi.Mpool.Prefix.{SameBytes, SamePrefix, AreBytes}
use byedpi.Mpool.Pool.{mem_delete, Item, mem_get}
use byedpi.Mpool.Pool.Owned.{IsValid, Moves, Added}
use byedpi.Conev.Events.{set_at}
use byedpi.Extend.Groups.{In}
use byedpi.Extend.Filter.{Group}
use byedpi.Extend.Hooks.{Side}
use byedpi.Extend.Cache.{Cache, no_info, serialize_addr, eq_bitlen, cache_get, cache_add}
use byedpi.Extend.Cache.Bitlen.{eq_bitlen-SamePrefix}
use byedpi.Extend.Cache.Entries.{
  Given, Takes, Long, cache_get-stale, cache_get-Given, cache_add-Added,
}
use byedpi.Extend.Swop.{Groups, swop_groups}
use byedpi.Extend.Swop.Order.{Lists}
use byedpi.Extend.Swop.Places.{exchange}
use byedpi.Extend.Swop.Exchanged.{swop_groups-exchange}
use byedpi.Extend.Recover.{World, Client, Server, Setting}
use byedpi.Tests.Pool.{lists, lists-Tree, search}

abbrev AllBytes : Bytes → Type 0
AllBytes [] = Unit
AllBytes (x ∷ xs) = (x < 256) × AllBytes xs

AreBytes-AllBytes : (xs : Bytes) → AllBytes xs → AreBytes xs
AreBytes-AllBytes [] h i = omega arith
AreBytes-AllBytes (x ∷ xs) h zero = h.0
AreBytes-AllBytes (x ∷ xs) h (suc i) = AreBytes-AllBytes xs h.1 i

abbrev ten : Bytes
ten = 10 ∷ 1 ∷ 7 ∷ []

abbrev ten_too : Bytes
ten_too = 10 ∷ 1 ∷ 5 ∷ []

eq_bitlen-SamePrefix_example : Returns (eq_bitlen ten ten_too 3) (λ k.
    (SameBytes 3 ten ten_too 0 × (k ≡ 8 * 3 + 8))
    ⊎ ((k < 8 * 3) × SamePrefix k ten ten_too × (SamePrefix (k + 1) ten ten_too → ⊥)))
eq_bitlen-SamePrefix_example =
    eq_bitlen-SamePrefix ten ten_too 3 (omega arith) (omega arith)
      (AreBytes-AllBytes ten (omega arith)) (AreBytes-AllBytes ten_too (omega arith))

abbrev site : Addr
site = record { family = inet; port = 0x5000; v4 = 10 ∷ 0 ∷ 0 ∷ 1 ∷ []; v6 = [] }

abbrev other_site : Addr
other_site = record { family = inet; port = 0xbb01; v4 = 192 ∷ 168 ∷ 0 ∷ 9 ∷ []; v6 = [] }

abbrev site_key : Bytes
site_key = 2 ∷ 0 ∷ 0 ∷ 80 ∷ 10 ∷ 0 ∷ 0 ∷ 1 ∷ []

-- Three groups in a row, which detect one event each and may be sorted.
abbrev prev_of : ℕ → Option ℕ
prev_of zero = none
prev_of (suc i) = some i

abbrev after : ℕ → Option ℕ
after zero = some 1
after (suc zero) = some 2
after (suc (suc i)) = none

abbrev row : Groups
row = record { prev = prev_of; next = after; detect = λ i. i; auto_level = λ i. 4; head = 0 }

abbrev ids : List ℕ
ids = 0 ∷ 1 ∷ 2 ∷ []

row-Lists : Lists row ids
row-Lists = (
  refl,
  (refl, refl, (refl, refl, (refl, refl, tt))),
  ((λ y i e. distinct y i e), ((λ y i e. distinct' y i e), ((λ y i e. i), tt))),
)
  where
    distinct : (y : ℕ) → In y (1 ∷ 2 ∷ []) → 0 ≡ y → ⊥
    distinct y (inl p) e = omega arith
    distinct y (inr (inl p)) e = omega arith
    distinct y (inr (inr p)) e = p

    distinct' : (y : ℕ) → In y (2 ∷ []) → 1 ≡ y → ⊥
    distinct' y (inl p) e = omega arith
    distinct' y (inr p) e = p

swop_groups-exchange_example : Returns (swop_groups row 0 2) (λ g'.
    Lists g' (map (exchange 0 2) ids)
    × ((x : ℕ)
        → (g'.detect (exchange 0 2 x) ≡ row.detect x)
          × (g'.auto_level (exchange 0 2 x) ≡ row.auto_level x)))
swop_groups-exchange_example =
    swop_groups-exchange row ids 0 2 row-Lists (inl (refl, inr (inl refl)))

abbrev bit_of : ℕ → Word
bit_of zero = true ∷ false ∷ false ∷ []
bit_of (suc zero) = false ∷ true ∷ false ∷ []
bit_of (suc (suc i)) = false ∷ false ∷ true ∷ []

abbrev plain : ℕ → Group
plain i = record {
  id = i;
  bit = bit_of i;
  detect = i;
  auto_level = 4;
  proto = 0;
  pf0 = 0;
  pf1 = 0;
  round0 = 0;
  round1 = 0;
  hosts = none;
  ipset = none;
}

abbrev no_bits : Word
no_bits = false ∷ false ∷ false ∷ []

-- One entry, which is 5 seconds old, of the first group.
abbrev known : Item
known = record { at = 1; elem = record { len = 64; body = site_key } }

abbrev cache : Cache (List Item)
cache = record {
  hdr = record {
    is_static = false;
    has_extra = true;
    cmp_type = cmp_bits;
    count = 1;
    root = known ∷ [];
    freed = [];
  };
  info = λ a. record { extra = none; dp_mask = no_bits; dp = some 0; detect = 0; time = 100 };
}

cache_get-Given_example : Returns (cache_get lists cache (λ i. 3) 105 site) (λ r.
    Given lists lists-Tree cache (λ i. 3) 105 site r
    × IsValid lists lists-Tree r.1.hdr
    × Moves lists lists-Tree cache.hdr r.1.hdr)
unfolding lists-Tree
cache_get-Given_example =
    cache_get-Given lists lists-Tree cache (λ i. 3) 105 site refl (λ val e. (0, refl))

cache_get-stale_example : Returns (cache_get lists cache (λ i. 3) 105 site) (λ r.
    (r.0 ≡ none)
    × ((key : Elem) × (r.1.hdr ≡ mem_delete lists cache.hdr key)
        × ((other : Addr) (len : ℕ)
            → other.family ≡ inet
            → 8 ≤ len
            → bit_cmp key (record { len = len; body = serialize_addr other }) ≡ some same)))
unfolding mem_get lists search serialize_addr
cache_get-stale_example =
    cache_get-stale lists lists-Tree cache (λ i. 3) 105 site known 0 refl refl refl refl refl

site-AreBytes : AreBytes (serialize_addr site)
unfolding serialize_addr
site-AreBytes = AreBytes-AllBytes site_key (omega arith)

cache-Long : Long lists lists-Tree cache 8 site
unfolding serialize_addr mem_get lists search
cache-Long val e =
    let same = some-injective known val e in
    subst (λ (v : Item). (8 ≤ length v.elem.body) × AreBytes v.elem.body) same
      (omega arith, AreBytes-AllBytes site_key (omega arith))

cache_add-Added_example :
    Returns (cache_add lists 2 no_bits cache 8 107 2 site (some (97 ∷ []))) (λ (val, c', host').
      ((len : ℕ) × (len ≤ 8 * length (serialize_addr site) + 8)
        × Added lists lists-Tree
            (record { at = 2; elem = record { len = len; body = serialize_addr site } })
            cache.hdr
            (val, c'.hdr))
      × ((c'.info val.at).time ≡ 107)
      × Takes lists lists-Tree
          (set_at cache.info 2 (no_info no_bits) val.at).extra
          (some (97 ∷ []))
          ((c'.info val.at).extra, host')
      × ((a : ℕ) → a ≢ val.at → a ≢ 2 → c'.info a ≡ cache.info a))
unfolding lists-Tree
cache_add-Added_example =
    cache_add-Added lists lists-Tree 2 no_bits cache 8 107 2 site (some (97 ∷ [])) refl
      (omega arith) site-AreBytes cache-Long

abbrev world : World (List Item)
world = record { cache = cache; groups = row; fail_count = λ i. 0; pri = λ i. 9 - i; rest = plain }

abbrev side : Side
side = record {
  recv_count = 9;
  round_sent = 0;
  round_count = 1;
  part_sent = 0;
  mark = true;
  counts_timeouts = true;
  sq_buff = some (22 ∷ 3 ∷ []);
}

abbrev client : Client
client = record { dp = 0; dp_mask = no_bits; detect = 0; host = none; buff = none; side = side }

abbrev server : Server
server = record { addr = site; recv_count = 0; round_count = 0; to_count = pos 0 }

abbrev setting : Setting
setting = record { cache_pre = 8; now = 107; at = 2; inserts = 2; dp_n = 3; zeros = no_bits }
