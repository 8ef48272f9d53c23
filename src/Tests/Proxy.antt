-- ===== src/Tests/Proxy.antt =====
-- Witnesses for Net and Proxy.
use byedpi.Prelude.{
  ◌≡◌, refl, true, false, Option, none, some, [], ◌∷◌, Bytes, arith, replicate, Returns,
}
use byedpi.Net.{Addr, inet}
use byedpi.Proxy.{Settings, s5_set_addr, s5_get_addr}
use byedpi.Proxy.Socks.{copied, s5_get_addr-s5_set_addr}

abbrev server : Addr
server = record { family = inet; port = 443; v4 = 1 ∷ 2 ∷ 3 ∷ 4 ∷ []; v6 = replicate 16 0 }

abbrev no_names : Bytes → Option Addr
no_names name = none

abbrev set : Settings
set = record { resolve = true; ipv6 = true }

s5_get_addr-s5_set_addr_example :
    Returns
      (s5_set_addr (replicate 32 7) 4 22 server false)
      (λ (len, b). s5_get_addr no_names set b 4 22 server ≡ some (len, copied server server))
s5_get_addr-s5_set_addr_example =
    s5_get_addr-s5_set_addr no_names set (replicate 32 7) 4 22 server server refl refl refl
      (omega arith) (omega arith) (omega arith)
