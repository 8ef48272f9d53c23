-- ===== src/Conev/Timers.antt =====
-- The timers of conev.c: set_timer, remove_timer, and the part of next_event_tv that looks at them.
-- The list that tv_prev makes is a list from tv_end to tv_start; a timer is its struct eval, by a
-- number, and tv_ms. A struct eval has a timer when its tv_ms is not 0.
use byedpi.Prelude.{
  ◌⊎◌, ℕ, ◌+◌, ◌-◌, ◌≤◌, ◌≡◌, refl, inl, inr, Bool, false, Option, none, some, List, [], ◌∷◌, arith,
  ltb, leb, ◌==◌, ◌||◌, if◌then◌else◌, Bool-cases,
}

pub record Timer : Type 0 where
  pub owner : ℕ
  pub tv_ms : ℕ

unfoldable pub has_timer : ℕ → List Timer → Bool
has_timer val [] = false
has_timer val (t ∷ ts) = t.owner == val || has_timer val ts

-- The walk from tv_end back, past the timers that are not earlier.
unfoldable pub place : Timer → List Timer → List Timer
place t [] = t ∷ []
place t (prev ∷ ts) = if leb t.tv_ms prev.tv_ms then prev ∷ place t ts else t ∷ prev ∷ ts

unfoldable pub set_timer : List Timer → ℕ → ℕ → ℕ → List Timer
unfolding has_timer place
set_timer ts val now ms =
    if has_timer val ts then ts else place (record { owner = val; tv_ms = now + ms }) ts

unfoldable pub remove_timer : List Timer → ℕ → List Timer
remove_timer [] val = []
remove_timer (t ∷ ts) val = if t.owner == val then ts else t ∷ remove_timer ts val

-- tv_start
unfoldable pub tv_start : List Timer → Option Timer
tv_start [] = none
tv_start (t ∷ []) = some t
tv_start (t ∷ s ∷ ts) = tv_start (s ∷ ts)

-- The argument of next_event: -1, a number of milliseconds, or no call at all, which is POLLTIMEOUT.
pub data Wait : Type 0 where
  forever due : Wait
  for_ms : ℕ → Wait

unfoldable pub wait_time : List Timer → ℕ → Wait
unfolding tv_start
wait_time ts now = elim (tv_start ts) [
  | none ↦ forever
  | some t ↦ if ltb now t.tv_ms then for_ms (t.tv_ms - now) else due
]

abbrev taken : List Timer → Option Timer → Option ℕ × List Timer
taken ts none = (none, ts)
taken ts (some t) = (some t.owner, remove_timer ts t.owner)

-- The timer that is taken when the time is over.
unfoldable pub take_timer : List Timer → Option ℕ × List Timer
unfolding tv_start remove_timer
take_timer ts = taken ts (tv_start ts)

-- No timer of the list is earlier than `ms`, and none later.
abbrev pub NotAfter : ℕ → List Timer → Type 0
NotAfter ms [] = Unit
NotAfter ms (t ∷ ts) = (t.tv_ms ≤ ms) × NotAfter ms ts

abbrev pub NotBefore : ℕ → List Timer → Type 0
NotBefore ms [] = Unit
NotBefore ms (t ∷ ts) = (ms ≤ t.tv_ms) × NotBefore ms ts

-- The latest timer comes first.
abbrev pub IsOrdered : List Timer → Type 0
IsOrdered [] = Unit
IsOrdered (t ∷ ts) = NotAfter t.tv_ms ts × IsOrdered ts

NotAfter-trans : (a b : ℕ) (ts : List Timer) → a ≤ b → NotAfter a ts → NotAfter b ts
NotAfter-trans a b [] h n = tt
NotAfter-trans a b (t ∷ ts) h (k, n) = (omega arith, NotAfter-trans a b ts h n)

place-NotAfter :
    (ms : ℕ) (t : Timer) (ts : List Timer)
    → t.tv_ms ≤ ms
    → NotAfter ms ts
    → NotAfter ms (place t ts)
unfolding place
place-NotAfter ms t [] h n = (h, tt)
place-NotAfter ms t (s ∷ ts) h (k, n) = elim (Bool-cases (leb t.tv_ms s.tv_ms)) [
  | inl y ↦ rw y (k, place-NotAfter ms t ts h n)
  | inr z ↦ rw z (h, (k, n))
]

place-IsOrdered : (t : Timer) (ts : List Timer) → IsOrdered ts → IsOrdered (place t ts)
unfolding place
place-IsOrdered t [] o = (tt, tt)
place-IsOrdered t (s ∷ ts) (n, o) = elim (Bool-cases (leb t.tv_ms s.tv_ms)) [
  | inl y ↦ rw y (place-NotAfter s.tv_ms t ts (ground arith) n, place-IsOrdered t ts o)
  | inr z ↦ rw z ((ground arith, NotAfter-trans s.tv_ms t.tv_ms ts (ground arith) n), (n, o))
]

-- `set_timer` keeps the timers in the order of their times, and leaves a timer that is set alone.
pub set_timer-IsOrdered :
    (ts : List Timer) (val now ms : ℕ)
    → IsOrdered ts
    → IsOrdered (set_timer ts val now ms)
      × ((has_timer val ts ≡ false) ⊎ (set_timer ts val now ms ≡ ts))
unfolding set_timer
set_timer-IsOrdered ts val now ms o = elim (Bool-cases (has_timer val ts)) [
  | inl y ↦ rw y (o, inr refl)
  | inr z ↦ rw z (place-IsOrdered (record { owner = val; tv_ms = now + ms }) ts o, inl refl)
]

remove_timer-NotAfter :
    (ms : ℕ) (ts : List Timer) (val : ℕ) → NotAfter ms ts → NotAfter ms (remove_timer ts val)
unfolding remove_timer
remove_timer-NotAfter ms [] val n = tt
remove_timer-NotAfter ms (t ∷ ts) val (k, n) = elim (Bool-cases (t.owner == val)) [
  | inl y ↦ rw y n
  | inr z ↦ rw z (k, remove_timer-NotAfter ms ts val n)
]

remove_timer-IsOrdered :
    (ts : List Timer) (val : ℕ) → IsOrdered ts → IsOrdered (remove_timer ts val)
unfolding remove_timer
remove_timer-IsOrdered [] val o = tt
remove_timer-IsOrdered (t ∷ ts) val (n, o) = elim (Bool-cases (t.owner == val)) [
  | inl y ↦ rw y o
  | inr z ↦ rw z (remove_timer-NotAfter t.tv_ms ts val n, remove_timer-IsOrdered ts val o)
]

tv_start-NotBefore :
    (ts : List Timer) (t : Timer) → IsOrdered ts → tv_start ts ≡ some t → NotBefore t.tv_ms ts
unfolding tv_start
tv_start-NotBefore [] t o e = tt
tv_start-NotBefore (x ∷ []) t o e = (ground arith, tt)
tv_start-NotBefore (x ∷ s ∷ ts) t ((k, n), o) e =
    let (h, g) = tv_start-NotBefore (s ∷ ts) t o e in (omega arith, (h, g))

-- The timer that is taken from a list in order is the earliest of it, and the rest is in order.
pub take_timer-IsOrdered :
    (ts : List Timer) (t : Timer)
    → IsOrdered ts
    → tv_start ts ≡ some t
    → ((take_timer ts).0 ≡ some t.owner) × NotBefore t.tv_ms ts × IsOrdered (take_timer ts).1
unfolding take_timer
take_timer-IsOrdered ts t o e =
    rw e (refl, tv_start-NotBefore ts t o e, remove_timer-IsOrdered ts t.owner o)
