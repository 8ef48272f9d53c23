-- ===== src/Extend/Swop/Places.antt =====
-- The maps of fields after swop_groups, place by place.
use byedpi.Prelude.{
  ℕ, ◌≡◌, ◌≢◌, inl, refl, sym, ◌∙◌, inr, true, false, ℕ_discrete, Bool-cases, Option, none, some,
  arith, ◌==◌, if◌then◌else◌,
}
use byedpi.Conev.Events.{set_at}
use byedpi.Extend.Swop.{exchanged, is_at, set_if}

abbrev pub exchange : ℕ → ℕ → ℕ → ℕ
exchange c n x = if x == c then n else if x == n then c else x

abbrev pub exchange_ptr : ℕ → ℕ → Option ℕ → Option ℕ
exchange_ptr c n none = none
exchange_ptr c n (some x) = some (exchange c n x)

pub set_if-at :
    (f : ℕ → Option ℕ) (p : Option ℕ) (i x : ℕ)
    → set_if f p i x ≡ (if is_at p x then some i else f x)
unfolding set_if
set_if-at f none i x = refl
set_if-at f (some p) i x = ground arith

pub exchanged_second {ℓ} : {A : Type ℓ} (f : ℕ → A) (c n : ℕ) → exchanged f c n n ≡ f c
unfolding exchanged
exchanged_second f c n = ground arith

pub exchanged_first {ℓ} : {A : Type ℓ} (f : ℕ → A) (c n : ℕ) → c ≢ n → exchanged f c n c ≡ f n
unfolding exchanged
exchanged_first f c n h = ground arith

pub exchanged_other {ℓ} :
    {A : Type ℓ} (f : ℕ → A) (c n x : ℕ) → x ≢ c → x ≢ n → exchanged f c n x ≡ f x
unfolding exchanged
exchanged_other f c n x h k = ground arith

pub is_at-false : (p : Option ℕ) (x : ℕ) → p ≢ some x → is_at p x ≡ false
is_at-false none x h = refl
is_at-false (some j) x h = ground (arith, h)

pub set_if-skip : (f : ℕ → Option ℕ) (p : Option ℕ) (i x : ℕ) → p ≢ some x → set_if f p i x ≡ f x
set_if-skip f p i x h = rw (set_if-at f p i x, is_at-false p x h)

is_at-eq : (p : Option ℕ) (x : ℕ) → is_at p x ≡ true → p ≡ some x
is_at-eq none x h = absurd cc
is_at-eq (some j) x h = ground arith

pub exchange_ptr_same : (c n : ℕ) (p : Option ℕ) → p ≢ some c → p ≢ some n → exchange_ptr c n p ≡ p
exchange_ptr_same c n none h k = refl
exchange_ptr_same c n (some x) h k = ground (arith, h, k)

pub exchange_ptr_first : (c n : ℕ) → exchange_ptr c n (some c) ≡ some n
exchange_ptr_first c n = ground arith

pub exchange_ptr_second : (c n : ℕ) → c ≢ n → exchange_ptr c n (some n) ≡ some c
exchange_ptr_second c n h = ground arith

pub exchange_ptr_comm : (c n : ℕ) (p : Option ℕ) → exchange_ptr c n p ≡ exchange_ptr n c p
exchange_ptr_comm c n none = refl
exchange_ptr_comm c n (some x) = ground arith

pub set_at_self : (f : ℕ → Option ℕ) (i : ℕ) (v : Option ℕ) → set_at f i v i ≡ v
set_at_self f i v = ground arith

pub set_at-other : (f : ℕ → Option ℕ) (i : ℕ) (v : Option ℕ) (x : ℕ) → x ≢ i → set_at f i v x ≡ f x
set_at-other f i v x h = ground arith

pub set_at-is_at :
    (f : ℕ → Option ℕ) (i : ℕ) (v : Option ℕ) (x : ℕ) (p : Option ℕ)
    → p ≡ some i
    → set_at f i v x ≡ (if is_at p x then v else f x)
set_at-is_at f i v x p e = rw e (ground arith)

-- By places: at the two groups, and at the others.
pub at_places :
    (c n : ℕ) (field after : ℕ → Option ℕ) (x : ℕ)
    → after n ≡ exchange_ptr c n (field c)
    → after c ≡ exchange_ptr c n (field n)
    → (x ≢ c → x ≢ n → after x ≡ exchange_ptr c n (field x))
    → after (exchange c n x) ≡ exchange_ptr c n (field x)
at_places c n field after x h k l = elim (ℕ_discrete x c) [
  | yes e ↦ rw e (rw (test_true c) h)
  | no e ↦ elim (ℕ_discrete x n) [
    | yes f ↦ rw f (rw (test_false n c (λ q. e (f ∙ q)), test_true n) k)
    | no f ↦ rw (test_false x c e, test_false x n f) (l e f)
  ]
]
  where
    test_true : (y : ℕ) → (y == y) ≡ true
    test_true y = ground arith

    test_false : (y z : ℕ) → y ≢ z → (y == z) ≡ false
    test_false y z h = ground arith

-- The pointers of the other groups: those to `c` and `n` change.
pub others :
    (c n x : ℕ) (field back : ℕ → Option ℕ)
    → c ≢ n
    → (field x ≡ some c → back c ≡ some x) × (back c ≡ some x → field x ≡ some c)
    → (field x ≡ some n → back n ≡ some x) × (back n ≡ some x → field x ≡ some n)
    → (if is_at (back n) x then some c else if is_at (back c) x then some n else field x)
      ≡ exchange_ptr c n (field x)
others c n x field back h (k, k') (l, l') = elim (Bool-cases (is_at (back n) x)) [
  | inl y ↦ rw (y, l' (is_at-eq _ x y)) (sym (exchange_ptr_second c n h))
  | inr z ↦ elim (Bool-cases (is_at (back c) x)) [
    | inl y ↦ rw (z, y, k' (is_at-eq _ x y)) (sym (exchange_ptr_first c n))
    | inr w ↦
        rw (z, w)
          (sym (
            exchange_ptr_same c n (field x) (λ q. absurd (at_false (back c) w (k q)))
              (λ q. absurd (at_false (back n) z (l q)))))
  ]
]
  where
    at_false : (p : Option ℕ) → is_at p x ≡ false → p ≡ some x → ⊥
    at_false none w e = absurd cc
    at_false (some j) w e = ground arith
