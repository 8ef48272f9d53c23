-- ===== src/Tests/Tables.antt =====
-- Witnesses for Mpool, Extend and Conev.
use byedpi.Prelude.{
  ℕ, zero, suc, ◌<◌, ◌≡◌, ◌↔◌, refl, true, false, none, some, [], ◌∷◌, List, arith, replicate,
  Returns, min, Option,
}
use byedpi.Prelude.Ctype.{codes}
use byedpi.Net.{Addr, inet}
use byedpi.Mpool.{Elem, same, host_cmp, bit_cmp}
use byedpi.Mpool.Hosts.{Covers, host_cmp-Covers}
use byedpi.Mpool.Prefix.{SamePrefix, AreBytes, bit_cmp-SamePrefix}
use byedpi.Extend.Filter.{Pool, Group, Seeker, find_dp}
use byedpi.Extend.Choice.{Chosen, find_dp-Chosen}
use byedpi.Extend.Trigger.{Follow, follow}
use byedpi.Extend.Trigger.Records.{Followed, follow-Followed}
use byedpi.Conev.Timers.{Timer, IsOrdered}
use byedpi.Conev.Buffers.{Buffer, Store, IsValid}

abbrev site : Elem
site = record { len = 5; body = codes "b.com" }

abbrev subdomain : Elem
subdomain = record { len = 7; body = codes "a.b.com" }

host_cmp-Covers_example :
    Returns (host_cmp site subdomain) (λ s. (s ≡ same) ↔ Covers site subdomain)
host_cmp-Covers_example = host_cmp-Covers site subdomain (omega arith) (omega arith)

abbrev network : Elem
network = record { len = 12; body = 10 ∷ 16 ∷ [] }

abbrev address : Elem
address = record { len = 16; body = 10 ∷ 23 ∷ [] }

two-AreBytes : (a b : ℕ) → a < 256 → b < 256 → AreBytes (a ∷ b ∷ [])
two-AreBytes a b h k zero = h
two-AreBytes a b h k (suc zero) = k
two-AreBytes a b h k (suc (suc i)) = omega arith

bit_cmp-SamePrefix_example :
    Returns
      (bit_cmp network address)
      (λ s. (s ≡ same) ↔ SamePrefix (min 12 16) (10 ∷ 16 ∷ []) (10 ∷ 23 ∷ []))
bit_cmp-SamePrefix_example =
    bit_cmp-SamePrefix network address (omega arith) (omega arith)
      (two-AreBytes 10 16 (omega arith) (omega arith))
      (two-AreBytes 10 23 (omega arith) (omega arith))

abbrev only : Group
only = record {
  id = 0;
  bit = true ∷ [];
  detect = 0;
  auto_level = 0;
  proto = 0;
  pf0 = 0;
  pf1 = 0;
  round0 = 0;
  round1 = 0;
  hosts = none;
  ipset = none;
}

abbrev nothing_found : Pool → Elem → Option Elem
nothing_found pool e = none

abbrev seeker : Seeker
seeker = record { init = none; detect = 0; bytes = some (codes "GET / HTTP/1.1", 14) }

abbrev destination : Addr
destination = record { family = inet; port = 80; v4 = 1 ∷ 2 ∷ 3 ∷ 4 ∷ []; v6 = replicate 16 0 }

find_dp-Chosen_example :
    Returns
      (find_dp nothing_found (true ∷ []) (only ∷ []) [] seeker destination (false ∷ []))
      (Chosen nothing_found (only ∷ []) seeker destination (true ∷ []) (false ∷ []))
find_dp-Chosen_example =
    find_dp-Chosen nothing_found (true ∷ []) (only ∷ []) [] seeker destination (false ∷ [])
      (omega arith) (λ g i. absurd i) (((λ e. e), tt), tt) (λ m a. a.0) ((λ e. refl), tt)

abbrev spare : Buffer
spare = record { size = 16; offset = 0; lock = 0 }

abbrev one_spare : Store
one_spare = record { root = spare ∷ []; count = 1 }

one_spare-IsValid : IsValid 16 one_spare
one_spare-IsValid = record { counted = refl; bounded = omega arith; clean = (refl, refl, refl, tt) }

abbrev timers : List Timer
timers = record { owner = 2; tv_ms = 30 } ∷ record { owner = 1; tv_ms = 10 } ∷ []

timers-IsOrdered : IsOrdered timers
timers-IsOrdered = ((omega arith, tt), (tt, tt))

abbrev stream_start : Follow
stream_start = record { tls_rec = replicate 5 0; tls_rec_pos = 0; tls_rec_size = 0 }

follow-Followed_example :
    Returns (follow stream_start (22 ∷ 3 ∷ 3 ∷ 0 ∷ 1 ∷ 9 ∷ 22 ∷ []) 7) Followed
follow-Followed_example =
    follow-Followed stream_start (22 ∷ 3 ∷ 3 ∷ 0 ∷ 1 ∷ 9 ∷ 22 ∷ []) 7 refl (omega arith)
      (omega arith)
