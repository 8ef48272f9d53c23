-- ===== src/Net/Mapped.antt =====
-- Mapping an address into IPv6 and back.
use byedpi.Prelude.{ℕ, ◌<◌, ◌≡◌, true, false, arith}
use byedpi.Net.{Addr, inet, inet6, htons, same_list, map_fix, is_mapped}

pub htons-htons : (x : ℕ) → x < 65536 → htons (htons x) ≡ x
unfolding htons
htons-htons x h = omega arith

-- An IPv4 address survives the way into IPv6 and back, with its port, whatever stood in the IPv6
-- part; and the way in gives an address of the mapped form.
pub map_fix-map_fix :
    (a : Addr)
    → a.family ≡ inet
    → (map_fix a true).family ≡ inet6
      × (is_mapped (map_fix a true) ≡ true)
      × ((map_fix (map_fix a true) false).family ≡ inet)
      × ((map_fix (map_fix a true) false).v4 ≡ a.v4)
      × ((map_fix (map_fix a true) false).port ≡ a.port)
unfolding map_fix same_list
map_fix-map_fix a h = ground arith
