-- ===== src/Tests/Outgoing.antt =====
-- The sockets to servers at concrete answers of the system calls.
use byedpi.Prelude.{ℕ, zero, suc, ◌<◌, ◌≡◌, refl, true, false, some, [], ◌∷◌, arith}
use byedpi.Net.{Addr, inet}
use byedpi.Conev.Events.{Eval, Poolhd, closed}
use byedpi.Conev.Events.Table.{IsValid, Live}
use byedpi.Proxy.Outgoing.{SockCalls, ConnCalls, UdpCalls, create_conn}
use byedpi.Proxy.Outgoing.Balance.{Balanced, create_conn-Balanced}

-- One entry, that of a client.
first_items : ℕ → Eval
first_items zero = record closed { fd = some 7; index = 0 }
first_items (suc n) = closed

abbrev first : Poolhd
first = record {
  max = 4;
  count = 1;
  iters = 0;
  links = λ i. i;
  items = first_items;
  timers = [];
  buffers = record { root = []; count = 0 };
}

first-IsValid : IsValid first
unfolding first_items
first-IsValid = record { fits = omega arith; used = used; live = live; differ = λ i j l m e. e }
  where
    used : (i : ℕ) → i < 1 → Live first i × ((first_items i).index ≡ i)
    used zero l = (refl, refl)
    used (suc i) l = absurd (omega arith)

    live : (v : ℕ) → Live first v → ((first_items v).index < 1) × ((first_items v).index ≡ v)
    live zero a = (omega arith, refl)
    live (suc v) a = absurd cc

first-Live : Live first 0
unfolding first_items
first-Live = refl

abbrev good : SockCalls
good = record { socket = some 8; modded = true; v6only = true; bound = true }

abbrev server : Addr
server = record { family = inet; port = 0x5000; v4 = 10 ∷ 0 ∷ 0 ∷ 1 ∷ []; v6 = [] }

-- mod_etype fails.
abbrev late_failure : ConnCalls
late_failure = record {
  sock = good;
  syncnt = true;
  fastopen = true;
  nodelay = true;
  connected = true;
  added = true;
  mod_etype = false;
}

create_conn-Balanced_example :
    Balanced false first 0 [] (create_conn inet true late_failure first 0 server [])
create_conn-Balanced_example =
    create_conn-Balanced inet true late_failure first 0 server [] first-IsValid first-Live

-- The second bind fails.
abbrev unbound : UdpCalls
unbound = record {
  sock = good;
  added = true;
  named = true;
  socket = some 9;
  bound = false;
  client_added = true;
  client_named = true;
  replied = true;
  mod_etype = true;
}
