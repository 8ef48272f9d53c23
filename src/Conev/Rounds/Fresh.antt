-- ===== src/Conev/Rounds/Fresh.antt =====
-- Which events next_event and next_event_tv hand out.
use byedpi.Prelude.{
  ℕ, zero, suc, ◌+◌, ◌-◌, ◌≤◌, ◌<◌, ◌≡◌, refl, ap, ◌∙◌, Option, none, some, List, [], ◌∷◌, length,
  arith, lt→ltb, ◌==◌, ◌>>=◌, if◌then◌else◌, if-cases, Returns,
}
use byedpi.Conev.Events.{Eval}
use byedpi.Conev.Timers.{Timer, for_ms, tv_start, remove_timer, wait_time, take_timer}
use byedpi.Conev.Rounds.{
  timeout, Ready, Answer, failed, none_ready, ready, Loop, look, wait_events, scan, next_event,
  is_timeout, or_timer, waited, next_event_tv,
}

-- Nothing was changed in an iteration that is still to come.
abbrev pub Past : (ℕ → Eval) → ℕ → Type 0
Past items n = (w : ℕ) → (items w).mod_iter ≤ n

-- What next_event hands out was last opened or closed in an iteration before this one; where it gives none,
-- epoll_wait gave no event.
abbrev pub Fresh : (ℕ → Eval) → Loop → Option ℕ × Loop → Type 0
Fresh items s (some val, s') = ((items val).mod_iter < s'.iters) × (s.iters ≤ s'.iters)
Fresh items s (none, s') = s'.iters ≡ s.iters

abbrev Waits : List Answer → Type 0
Waits ws = 0 < length ws

look-Fresh :
    (items : ℕ → Eval) (s t : Loop) (e : Ready) (es : List Ready)
    (again : Loop → Option (Option ℕ × Loop))
    → Past items s.iters
    → t.iters ≤ s.iters
    → (((items e.val).mod_iter ≡ s.iters)
        → Returns (again (record s { pevents = es })) (Fresh items t))
    → Returns (look items s e es again) (Fresh items t)
look-Fresh items s t e es again p l next =
    if-cases (λ r. Returns r (Fresh items t)) ((items e.val).mod_iter == s.iters) _ _
      (λ y. next (ground arith)) (λ n. (_, refl, (ground (arith, p e.val), l)))

wait-Fresh :
    (items : ℕ → Eval) (s : Loop) (ws : List Answer) (again : Loop → Option (Option ℕ × Loop))
    → Past items s.iters
    → Waits ws
    → Returns (wait_events items s ws again) (Fresh items s)
wait-Fresh items s [] again p w = absurd (omega arith)
wait-Fresh items s (failed ∷ ws) again p w = (_, refl, refl)
wait-Fresh items s (none_ready ∷ ws) again p w = (_, refl, refl)
wait-Fresh items s (ready e es ∷ ws) again p w =
    look-Fresh items (record s { waits = ws; iters = s.iters + 1 }) s e es again
      (λ u. omega (arith, p u)) (omega arith) (λ q. absurd (omega (arith, p e.val)))

scan-Fresh :
    (fuel : ℕ) (items : ℕ → Eval) (s : Loop) (es : List Ready)
    → Past items s.iters
    → length es < suc fuel
    → 0 < length s.waits
    → ((s' : Loop)
        → s'.iters ≡ s.iters
        → s'.waits ≡ s.waits
        → length s'.pevents < fuel
        → Returns (next_event fuel items s') (Fresh items s'))
    → Returns (scan items s es (λ s'. next_event fuel items s')) (Fresh items s)
scan-Fresh fuel items s [] p l w next = wait-Fresh items s s.waits _ p w
scan-Fresh fuel items s (e ∷ es) p l w next =
    look-Fresh items s s e es (λ s'. next_event fuel items s') p (omega arith)
      (λ q. next (record s { pevents = es }) refl refl (omega arith))

-- If no entry was opened or closed in a later iteration, next_event ends after one call of
-- epoll_wait at most, given more rounds than there are events left. What it hands out was opened or
-- closed last in an earlier iteration than the one that it is in.
pub next_event-Fresh :
    (fuel : ℕ) (items : ℕ → Eval) (s : Loop)
    → Past items s.iters
    → length s.pevents < fuel
    → 0 < length s.waits
    → Returns (next_event fuel items s) (Fresh items s)
unfolding next_event
next_event-Fresh zero items s p l w = absurd (omega arith)
next_event-Fresh (suc fuel) items s p l w =
    scan-Fresh fuel items s s.pevents p l w
      (λ s' i v l'. next_event-Fresh fuel items s' (λ u. omega (arith, p u, i)) l' (rw v w))

wait_time-before :
    (ts : List Timer) (t : Timer) (now : ℕ)
    → tv_start ts ≡ some t
    → now < t.tv_ms
    → wait_time ts now ≡ for_ms (t.tv_ms - now)
unfolding wait_time
wait_time-before ts t now f l = rw (wait_time, f, lt→ltb now t.tv_ms l) refl

take_timer-first :
    (ts : List Timer) (t : Timer)
    → tv_start ts ≡ some t
    → take_timer ts ≡ (some t.owner, remove_timer ts t.owner)
unfolding take_timer
take_timer-first ts t f = rw f refl

-- When epoll_wait is interrupted while POLLTIMEOUT is left in `*type` from the call before, the first
-- timer is handed out although it is not due.
pub next_event_tv_early :
    (fuel : ℕ) (items : ℕ → Eval) (ts : List Timer) (t : Timer) (now : ℕ) (s : Loop)
    (ws : List Answer)
    → tv_start ts ≡ some t
    → now < t.tv_ms
    → s.etype ≡ timeout
    → s.pevents ≡ []
    → s.waits ≡ failed ∷ ws
    → next_event_tv (suc fuel) items ts now s
      ≡ some (some t.owner, remove_timer ts t.owner, record s { waits = ws })
unfolding next_event_tv next_event wait_time take_timer
next_event_tv_early fuel items ts t now s ws f l e p w =
    waits_for ∙ (ap (λ r. r >>= λ r. some (or_timer ts r)) stopped ∙ ap some handed)
  where
    waits_for :
        next_event_tv (suc fuel) items ts now s
        ≡ waited (for_ms (t.tv_ms - now)) (suc fuel) items ts s
    waits_for = ap (λ a. waited a (suc fuel) items ts s) (wait_time-before ts t now f l)

    stopped : next_event (suc fuel) items s ≡ some (none, record s { waits = ws })
    stopped =
        ap (λ es. scan items s es (λ s'. next_event fuel items s')) p
        ∙ ap (λ a. wait_events items s a (λ s'. next_event fuel items s')) w

    s' : Loop
    s' = record s { waits = ws }

    r : Option ℕ × List Timer
    r = take_timer ts

    handed :
        or_timer ts (none, record s { waits = ws })
        ≡ (some t.owner, remove_timer ts t.owner, record s { waits = ws })
    handed =
        ap (λ b. if b then (r.0, r.1, s') else (none, ts, s')) (ap is_timeout e)
        ∙ ap (λ r. (r.0, r.1, s')) (take_timer-first ts t f)
