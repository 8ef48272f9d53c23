-- ===== src/Conev/Rounds.antt =====
-- Waiting for events in conev.c, with epoll: next_event and next_event_tv. The answers of epoll_wait
-- are a list, one for each call.
pub mod Fresh
use byedpi.Prelude.{
  ℕ, zero, suc, ◌+◌, ◌-◌, Bool, true, false, Option, none, some, List, [], ◌∷◌, ltb, ◌==◌, ◌>>=◌,
  if◌then◌else◌,
}
use byedpi.Conev.Events.{Eval}
use byedpi.Conev.Timers.{Timer, Wait, forever, for_ms, due, wait_time, take_timer}

-- The type of an event: POLLTIMEOUT, or the flags of poll.
pub data Etype : Type 0 where
  timeout : Etype
  flags : ℕ → Etype

pub record Ready : Type 0 where
  pub val : ℕ
  pub events : ℕ

-- How epoll_wait ends: with -1, with no event, or with some, from the last in the array back.
pub data Answer : Type 0 where
  failed none_ready : Answer
  ready : Ready → List Ready → Answer

-- `iters`, the events from `*offs` back, `*type`, and what epoll_wait will answer.
pub record Loop : Type 0 where
  pub iters : ℕ
  pub pevents : List Ready
  pub etype : Etype
  pub waits : List Answer

-- The event is handed out, or it is old and the loop goes on.
abbrev pub look :
    (ℕ → Eval)
    → Loop
    → Ready
    → List Ready
    → (Loop → Option (Option ℕ × Loop))
    → Option (Option ℕ × Loop)
look items s e rest again =
    let s' = record s { pevents = rest } in
    let next = again s' in
    if (items e.val).mod_iter == s.iters
    then next
    else some (some e.val, record s' { etype = flags e.events })

abbrev pub wait_events :
    (ℕ → Eval) → Loop → List Answer → (Loop → Option (Option ℕ × Loop)) → Option (Option ℕ × Loop)
wait_events items s [] again = none
wait_events items s (failed ∷ ws) again = some (none, record s { waits = ws })
wait_events items s (none_ready ∷ ws) again = some (none, record s { waits = ws; etype = timeout })
wait_events items s (ready e es ∷ ws) again =
    look items (record s { waits = ws; iters = s.iters + 1 }) e es again

abbrev pub scan :
    (ℕ → Eval) → Loop → List Ready → (Loop → Option (Option ℕ × Loop)) → Option (Option ℕ × Loop)
scan items s [] again = wait_events items s s.waits again
scan items s (e ∷ es) again = look items s e es again

-- while (1); `fuel` bounds the rounds.
unfoldable pub next_event : ℕ → (ℕ → Eval) → Loop → Option (Option ℕ × Loop)
next_event zero items s = none
next_event (suc fuel) items s = scan items s s.pevents (λ s'. next_event fuel items s')

abbrev pub is_timeout : Etype → Bool
is_timeout timeout = true
is_timeout (flags n) = false

-- Where no event came and the type says so, the first timer is taken.
abbrev pub or_timer : List Timer → Option ℕ × Loop → Option ℕ × List Timer × Loop
or_timer ts (some val, s) = (some val, ts, s)
or_timer ts (none, s) =
    let (val, ts') = take_timer ts in if is_timeout s.etype then (val, ts', s) else (none, ts, s)

abbrev pub waited :
    Wait → ℕ → (ℕ → Eval) → List Timer → Loop → Option (Option ℕ × List Timer × Loop)
waited forever fuel items ts s = do (val, s') ← next_event fuel items s; some (val, ts, s')
waited (for_ms ms) fuel items ts s = do r ← next_event fuel items s; some (or_timer ts r)
waited due fuel items ts s = some (or_timer ts (none, record s { etype = timeout }))

-- `now` is time_ms().
unfoldable pub next_event_tv :
    ℕ → (ℕ → Eval) → List Timer → ℕ → Loop → Option (Option ℕ × List Timer × Loop)
unfolding next_event wait_time take_timer
next_event_tv fuel items ts now s = waited (wait_time ts now) fuel items ts s
