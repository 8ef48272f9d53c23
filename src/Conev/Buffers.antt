-- ===== src/Conev/Buffers.antt =====
-- The list of free buffers of conev.c: buff_pop, buff_push and buff_ppop. A buffer is its capacity
-- and the two counters that a push clears; malloc succeeds.
use byedpi.Prelude.{
  ℕ, ◌+◌, ◌-◌, ◌≤◌, ◌≡◌, refl, Option, none, some, List, [], ◌∷◌, length, arith, leb, if◌then◌else◌,
}

pub record Buffer : Type 0 where
  pub size : ℕ
  pub offset : ℕ
  pub lock : ℕ

-- root_buff, from the newest on, and buff_count.
pub record Store : Type 0 where
  pub root : List Buffer
  pub count : ℕ

abbrev pub max_buff_inp : ℕ
max_buff_inp = 8

unfoldable pub buff_pop : Store → ℕ → Buffer × Store
buff_pop s size = elim s.root [
  | [] ↦ (record { size = size; offset = 0; lock = 0 }, s)
  | b ∷ rest ↦ (b, record { root = rest; count = s.count - 1 })
]

-- The null pointer is `none`.
unfoldable pub buff_push : Store → Option Buffer → Store
buff_push s none = s
buff_push s (some b) =
    if leb max_buff_inp s.count
    then s
    else record { root = record b { offset = 0; lock = 0 } ∷ s.root; count = s.count + 1 }

unfoldable pub buff_ppop : Store → ℕ → Buffer × Store
unfolding buff_pop buff_push
buff_ppop s size = let (b, s') = buff_pop s size in (b, buff_push s' (some b))

-- Every free buffer is clean and at least as large as the one size that is asked for.
abbrev pub AllClean : ℕ → List Buffer → Type 0
AllClean size [] = Unit
AllClean size (b ∷ bs) = (b.offset ≡ 0) × (b.lock ≡ 0) × (b.size ≡ size) × AllClean size bs

pub record IsValid (size : ℕ) (s : Store) : Type 0 where
  pub counted : s.count ≡ length s.root
  pub bounded : s.count ≤ 8
  pub clean : AllClean size s.root

-- While all callers ask for one size, a popped buffer has that size and no bytes in use, and the
-- list stays valid.
pub buff_pop-IsValid :
    (size : ℕ) (s : Store)
    → IsValid size s
    → IsValid size (buff_pop s size).1
      × ((buff_pop s size).0.size ≡ size)
      × ((buff_pop s size).0.lock ≡ 0)
      × ((buff_pop s size).0.offset ≡ 0)
unfolding buff_pop
buff_pop-IsValid size s v = go s.root s.count v.counted v.bounded v.clean
  where
    go :
        (root : List Buffer) (count : ℕ)
        → count ≡ length root
        → count ≤ 8
        → AllClean size root
        → let r = buff_pop (record { root = root; count = count }) size in
          IsValid size r.1 × (r.0.size ≡ size) × (r.0.lock ≡ 0) × (r.0.offset ≡ 0)
    go [] count c b a = (record { counted = c; bounded = b; clean = tt }, refl, refl, refl)
    go (x ∷ rest) count c b (o, l, z, a) =
        (record { counted = omega arith; bounded = omega arith; clean = a }, z, l, o)

-- A push of a buffer of that size keeps the list valid, so that it never holds more than eight.
pub buff_push-IsValid :
    (size : ℕ) (s : Store) (b : Buffer)
    → b.size ≡ size
    → IsValid size s
    → IsValid size (buff_push s (some b))
unfolding buff_push
buff_push-IsValid size s b e v = ground arith

-- buff_ppop keeps the list valid, and the next pop returns a buffer of the size of the one that is
-- lent.
pub buff_ppop-buff_pop :
    (size : ℕ) (s : Store)
    → IsValid size s
    → (buff_pop (buff_ppop s size).1 size).0.size ≡ (buff_ppop s size).0.size
      × IsValid size (buff_ppop s size).1
unfolding buff_pop buff_push buff_ppop
buff_ppop-buff_pop size s v = go s.root s.count v.counted v.bounded v.clean
  where
    go :
        (root : List Buffer) (count : ℕ)
        → count ≡ length root
        → count ≤ 8
        → AllClean size root
        → (buff_pop (buff_ppop (record { root = root; count = count }) size).1 size).0.size
            ≡ (buff_ppop (record { root = root; count = count }) size).0.size
          × IsValid size (buff_ppop (record { root = root; count = count }) size).1
    go [] count c b a =
        rw c
          (refl, record { counted = refl; bounded = omega arith; clean = (refl, refl, refl, tt) })
    go (x ∷ rest) count c b (o, l, z, a) = ground arith
