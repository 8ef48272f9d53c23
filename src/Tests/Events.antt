-- ===== src/Tests/Events.antt =====
-- Witnesses for the event table.
use byedpi.Prelude.{
  ℕ, zero, suc, ◌<◌, ◌≡◌, refl, true, false, Option, none, some, List, [], ◌∷◌, arith, ◌==◌,
  if◌then◌else◌, Returns,
}
use byedpi.Conev.Events.{Eval, Poolhd, release, unlink, part, closed, del_event}
use byedpi.Conev.Events.Table.{Live, IsValid}
use byedpi.Conev.Events.Closing.{Deletes, del_event-Deletes}
use byedpi.Conev.Timers.{tv_start, remove_timer, wait_time}
use byedpi.Conev.Rounds.{Etype, Loop, ready, failed, timeout, next_event, next_event_tv}
use byedpi.Prelude.Int.{negsuc}
use byedpi.Desync.Offset.{is_negative}
use byedpi.Conev.Cycle.{Called, Outside, Cycle, loop_event, round, settle}
use byedpi.Conev.Rounds.Fresh.{Past, Fresh, next_event-Fresh, next_event_tv_early}

abbrev entry : ℕ → ℕ → Option ℕ → Eval
entry fd index pair = record closed { fd = some fd; index = index; pair = pair }

-- Three entries, of which the first two are a pair.
three_items : ℕ → Eval
three_items zero = entry 7 0 (some 1)
three_items (suc zero) = entry 8 1 (some 0)
three_items (suc (suc zero)) = entry 9 2 none
three_items (suc (suc (suc n))) = closed

abbrev three : Poolhd
three = record {
  max = 4;
  count = 3;
  iters = 0;
  links = λ i. i;
  items = three_items;
  timers = [];
  buffers = record { root = []; count = 0 };
}

three-IsValid : IsValid three
unfolding three_items
three-IsValid = record { fits = omega arith; used = used; live = live; differ = λ i j l m e. e }
  where
    used : (i : ℕ) → i < 3 → Live three i × ((three_items i).index ≡ i)
    used zero l = (refl, refl)
    used (suc zero) l = (refl, refl)
    used (suc (suc zero)) l = (refl, refl)
    used (suc (suc (suc i))) l = absurd (omega arith)

    live : (v : ℕ) → Live three v → ((three_items v).index < 3) × ((three_items v).index ≡ v)
    live zero a = (omega arith, refl)
    live (suc zero) a = (omega arith, refl)
    live (suc (suc zero)) a = (omega arith, refl)
    live (suc (suc (suc v))) a = absurd cc

del_event-Deletes_example : Returns (del_event 4 three 0) (Deletes three 0)
del_event-Deletes_example = del_event-Deletes 4 three 0 three-IsValid (omega arith)

-- The third entry moved to the place of the first; the pair is gone.
abbrev indices : Option Poolhd → Option (ℕ × ℕ)
indices none = none
indices (some pool) = some (pool.count, (pool.items 2).index)

del_event_run : indices (del_event 4 three 0) ≡ some (1, 0)
unfolding del_event release unlink part three_items
del_event_run = refl

-- The entry 1 was closed in this iteration, and 2 was not.
abbrev round_items : ℕ → Eval
round_items i = if i == 1 then record closed { mod_iter = 5 } else closed

abbrev events : Loop
events = record {
  iters = 5;
  pevents = record { val = 1; events = 1 } ∷ record { val = 2; events = 4 } ∷ [];
  etype = timeout;
  waits = failed ∷ [];
}

next_event-Fresh_example : Returns (next_event 3 round_items events) (Fresh round_items events)
next_event-Fresh_example =
    next_event-Fresh 3 round_items events (λ w. ground arith) (omega arith) (omega arith)

abbrev idle : Loop
idle = record { iters = 5; pevents = []; etype = timeout; waits = failed ∷ [] }

next_event_tv_early_example :
    next_event_tv 1 round_items (record { owner = 3; tv_ms = 90 } ∷ []) 50 idle
    ≡ some
        (some 3, remove_timer (record { owner = 3; tv_ms = 90 } ∷ []) 3, record idle { waits = [] })
unfolding tv_start
next_event_tv_early_example =
    next_event_tv_early 0 round_items (record { owner = 3; tv_ms = 90 } ∷ [])
      (record { owner = 3; tv_ms = 90 }) 50 idle [] refl (omega arith) refl refl refl

-- Every callback fails.
abbrev fails : ℕ → Etype → Poolhd → Called
fails val e pool = record { ret = negsuc 0; pool = pool; brk = false }

abbrev start : Cycle
start = record { pool = three; pevents = []; etype = timeout; over = false }

-- Two events in one answer, and a wait that fails.
abbrev outside : List Outside
outside =
    record {
      now = 0;
      eintr = false;
      answer = ready (record { val = 0; events = 1 }) (record { val = 1; events = 1 } ∷ []);
    }
    ∷ record { now = 0; eintr = true; answer = failed }
    ∷ []

three-Past : Past three_items 0
unfolding three_items
three-Past zero = omega arith
three-Past (suc zero) = omega arith
three-Past (suc (suc zero)) = omega arith
three-Past (suc (suc (suc n))) = omega arith

abbrev in_use : Option Cycle → Option ℕ
in_use none = none
in_use (some c) = some c.pool.count

-- The second event was of the pair of the first, which was closed with it: it is passed over.
loop_event_run : in_use (loop_event fails start outside) ≡ some 1
unfolding loop_event round settle del_event release unlink part three_items next_event_tv next_event
    wait_time tv_start is_negative
loop_event_run = refl
