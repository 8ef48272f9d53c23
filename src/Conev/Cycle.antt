-- ===== src/Conev/Cycle.antt =====
-- loop_event of conev.c: an event is waited for, its callback is called, and where that fails the
-- entry is closed. The callbacks are a parameter.
use byedpi.Prelude.{
  ℕ, suc, Bool, not, Option, none, some, List, [], ◌∷◌, length, ◌>>=◌, if◌then◌else◌,
}
use byedpi.Prelude.Int.{ℤ}
use byedpi.Desync.Offset.{is_negative}
use byedpi.Conev.Timers.{Timer}
use byedpi.Conev.Events.{Poolhd, del_event}
use byedpi.Conev.Rounds.{Etype, Ready, Answer, Loop, next_event_tv}

-- What a callback leaves: its number, the table, and pool->brk.
pub record Called : Type 0 where
  pub ret : ℤ
  pub pool : Poolhd
  pub brk : Bool

-- What one round is given: time_ms(), the answer of epoll_wait, and `get_e() == EINTR`.
pub record Outside : Type 0 where
  pub now : ℕ
  pub answer : Answer
  pub eintr : Bool

-- The loop between two rounds: the table, the events that are left, `etype`, and whether it is over.
pub record Cycle : Type 0 where
  pub pool : Poolhd
  pub pevents : List Ready
  pub etype : Etype
  pub over : Bool

abbrev pub loop_of : Cycle → Answer → Loop
loop_of c a = record { iters = c.pool.iters; pevents = c.pevents; etype = c.etype; waits = a ∷ [] }

-- The table after the wait.
abbrev pub waited_pool : Poolhd → List Timer → Loop → Poolhd
waited_pool pool ts s = record pool { timers = ts; iters = s.iters }

module _ (cb : ℕ → Etype → Poolhd → Called) where
  -- The entry is closed when the callback fails.
  unfoldable pub settle : ℕ → Called → Option Poolhd
  settle val r = if is_negative r.ret then del_event (suc r.pool.count) r.pool val else some r.pool

  abbrev pub dispatch : Cycle → Bool → Option ℕ × List Timer × Loop → Option Cycle
  dispatch c eintr (none, ts, s) = some (record {
    pool = waited_pool c.pool ts s;
    pevents = s.pevents;
    etype = s.etype;
    over = not eintr;
  })
  dispatch c eintr (some val, ts, s) =
      let r = cb val s.etype (waited_pool c.pool ts s) in
      do
        pool ← settle val r
        some (record { pool = pool; pevents = s.pevents; etype = s.etype; over = r.brk })

  -- One round of while (!pool->brk).
  unfoldable pub round : Cycle → Outside → Option Cycle
  unfolding settle
  round c o = if c.over then some c else (do
    r ← next_event_tv (suc (length c.pevents)) c.pool.items c.pool.timers o.now (loop_of c o.answer)
    dispatch c o.eintr r)

  -- loop_event for as many rounds as there are entries in the list.
  unfoldable pub loop_event : Cycle → List Outside → Option Cycle
  unfolding round
  loop_event c [] = some c
  loop_event c (o ∷ os) = do c' ← round c o; loop_event c' os
