-- ===== src/Tests/Connect.antt =====
-- connect_hook at a concrete address, with a group that waits for the first bytes.
use byedpi.Prelude.{◌≡◌, refl, true, false, Option, none, some, List, [], ◌∷◌, Returns, replicate}
use byedpi.Net.{Addr, inet}
use byedpi.Mpool.{Elem, cmp_bits}
use byedpi.Mpool.Pool.{Item}
use byedpi.Extend.Filter.{Pool, Group, Seeker}
use byedpi.Extend.Cache.{Cache}
use byedpi.Extend.Connect.{Caller, Route, connect_hook}
use byedpi.Extend.Connect.Ways.{Takes, Remembers, connect_hook-Takes}
use byedpi.Tests.Pool.{lists, lists-Tree}

abbrev http_only : Group
http_only = record {
  id = 0;
  bit = true ∷ [];
  detect = 0;
  auto_level = 0;
  proto = 4;
  pf0 = 0;
  pf1 = 0;
  round0 = 0;
  round1 = 0;
  hosts = none;
  ipset = none;
}

abbrev route : Route
route = record {
  full = true ∷ [];
  groups = http_only ∷ [];
  delay_conn = true;
  cache_ttl = λ i. 0;
  out = λ i. none;
}

abbrev site : Addr
site = record { family = inet; port = 0x5000; v4 = 10 ∷ 0 ∷ 0 ∷ 1 ∷ []; v6 = replicate 16 0 }

abbrev known : Item
known = record { at = 1; elem = record { len = 64; body = 2 ∷ 0 ∷ 0 ∷ 80 ∷ 10 ∷ 0 ∷ 0 ∷ 1 ∷ [] } }

abbrev cache : Cache (List Item)
cache = record {
  hdr = record {
    is_static = false;
    has_extra = true;
    cmp_type = cmp_bits;
    count = 1;
    root = known ∷ [];
    freed = [];
  };
  info = λ a. record { extra = none; dp_mask = false ∷ []; dp = some 0; detect = 0; time = 100 };
}

abbrev caller : Caller
caller = record {
  dp = none;
  dp_mask = false ∷ [];
  detect = 0;
  buff = none;
  host = none;
  mark = false;
}

abbrev nothing_found : Pool → Elem → Option Elem
nothing_found pool e = none

connect_hook-Takes_example :
    Returns (connect_hook lists nothing_found route cache 105 caller site) (λ (way, c', cache').
      (s : Seeker) × Remembers lists lists-Tree nothing_found route cache 105 site caller s
      × (s.bytes ≡ caller.buff)
      × Takes nothing_found route s caller site way c')
unfolding lists-Tree
connect_hook-Takes_example =
    connect_hook-Takes lists lists-Tree nothing_found route cache 105 caller site tt
      (((λ e. e), tt), tt) (λ m a. a.0) refl (λ val e. (0, refl)) (λ a. ((λ e. refl), tt))
      ((λ e. refl), tt)
