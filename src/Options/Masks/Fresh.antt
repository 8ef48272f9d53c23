-- ===== src/Options/Masks/Fresh.antt =====
-- Up to 32 groups have bits of their own; a 33rd has none.
use byedpi.Prelude.{
  ℕ, zero, suc, ◌+◌, ◌≤◌, ◌<◌, ◌≡◌, ◌⊎◌, refl, ap, ◌∙◌, inl, inr, Bool, true, false, ◌&&◌, ◌||◌,
  none, some, ◌∷◌, arith, ltb, leb, ◌==◌, if◌then◌else◌, if-cases, Bool-cases, Returns,
}
use byedpi.Prelude.Word.{Word, or_word, meets}
use byedpi.Options.Masks.{tabulate, shift_one, Params, no_groups, add_group, add_groups}

or_word-tabulate :
    (k n : ℕ) (f g : ℕ → Bool)
    → or_word (tabulate k n f) (tabulate k n g) ≡ tabulate k n (λ i. f i || g i)
unfolding or_word tabulate
or_word-tabulate k zero f g = refl
or_word-tabulate k (suc n) f g = ap (λ w. (f k || g k) ∷ w) (or_word-tabulate (k + 1) n f g)

meets-tabulate :
    (k n : ℕ) (f g : ℕ → Bool)
    → ((i : ℕ) → (f i && g i) ≡ false)
    → meets (tabulate k n f) (tabulate k n g) ≡ false
unfolding meets tabulate
meets-tabulate k zero f g h = refl
meets-tabulate k (suc n) f g h = rw (h k) (meets-tabulate (k + 1) n f g h)

tabulate-cong : (k n : ℕ) (f g : ℕ → Bool) → ((i : ℕ) → f i ≡ g i) → tabulate k n f ≡ tabulate k n g
unfolding tabulate
tabulate-cong k zero f g h = refl
tabulate-cong k (suc n) f g h = rw (h k) (ap (λ w. g k ∷ w) (tabulate-cong (k + 1) n f g h))

-- The bits that `n` groups have between them.
abbrev pub covered : ℕ → ℕ → Bool
covered n i = if ltb n 32 then ltb i n else true

-- The bits of the group `id`.
abbrev owned : ℕ → ℕ → Bool
owned id i = if ltb id 31 then i == id else leb 31 i

shift_one-owned : (id : ℕ) → id < 32 → shift_one id ≡ some (tabulate 0 64 (owned id))
unfolding shift_one
shift_one-owned id h =
    if-cases (λ r. r ≡ some (tabulate 0 64 (owned id))) (ltb id 31) _ _
      (λ y. ap some (tabulate-cong 0 64 _ _ (λ i. rw y refl)))
      (λ n.
        if-cases (λ r. r ≡ some (tabulate 0 64 (owned id))) (id == 31) _ _
          (λ y. ap some (tabulate-cong 0 64 _ _ (λ i. rw n refl))) (λ m. absurd (ground arith)))

covered-suc : (n i : ℕ) → n < 32 → (covered n i || owned n i) ≡ covered (n + 1) i
covered-suc n i h = ground arith

covered-owned : (n i : ℕ) → n < 32 → (covered n i && owned n i) ≡ false
covered-owned n i h = ground arith

-- What `n` calls of add_group leave.
abbrev pub Has : ℕ → Params → Type 0
Has n p = (p.dp_n ≡ n) × (p.dp_full_mask ≡ tabulate 0 64 (covered n))

no_groups-Has : Has 0 no_groups
unfolding tabulate
no_groups-Has = (refl, refl)

-- The new group has no bit of the others.
abbrev pub Apart : Params → Params → Type 0
Apart p p' = (bit : Word) × (p'.bits ≡ bit ∷ p.bits) × (meets p.dp_full_mask bit ≡ false)

add_group-Has :
    (n : ℕ) (p : Params)
    → n < 32
    → Has n p
    → Returns (add_group p) (λ p'. Has (n + 1) p' × Apart p p')
unfolding add_group
add_group-Has n p h (e, f) =
    let bit = tabulate 0 64 (owned n) in
    let full = or_word-tabulate 0 64 (covered n) (owned n) in
    rw (e, shift_one-owned n h)
      (
        _,
        refl,
        (
          (
            refl,
            ap (λ w. or_word w bit) f ∙ (full ∙ tabulate-cong 0 64 _ _ (λ i. covered-suc n i h)),
          ),
          (
            bit,
            refl,
            ap (λ w. meets w bit) f
                ∙ meets-tabulate 0 64 (covered n) (owned n) (λ i. covered-owned n i h),
          ),
        ),
      )

-- Up to 32 calls of add_group succeed, the groups are counted, and their bits together are the
-- first ones, or all 64 for 32 groups.
add_groups-Has : (n : ℕ) → n ≤ 32 → Returns (add_groups n no_groups) (Has n)
unfolding add_groups
add_groups-Has zero h = (_, refl, no_groups-Has)
add_groups-Has (suc n) h =
    let (p, e, w) = add_groups-Has n (omega arith) in
    let (p', e', ((c, f), a)) = add_group-Has n p (omega arith) w in
    rw e (p', e', (omega (arith, c), f ∙ ap (λ k. tabulate 0 64 (covered k)) (omega arith)))

-- Where fewer than 32 groups were made, one more call succeeds; its bit is none of those of the others, and the
-- full mask has the bits of all. After 32 groups the shift of the next call has no value.
pub add_group-Apart :
    (n : ℕ)
    → n ≤ 32
    → Returns (add_groups n no_groups) (λ p.
      ((n < 32) × Returns (add_group p) (λ p'. Has (n + 1) p' × Apart p p'))
      ⊎ ((n ≡ 32) × (add_group p ≡ none)))
unfolding add_group shift_one
add_group-Apart n h =
    let (p, e, w) = add_groups-Has n h in
    elim (Bool-cases (ltb n 32)) [
      | inl y ↦ (p, e, inl (ground arith, add_group-Has n p (ground arith) w))
      | inr m ↦ (p, e, inr (omega (arith, ge32 m), full p (w.0 ∙ omega (arith, ge32 m))))
    ]
  where
    ge32 : ltb n 32 ≡ false → 32 ≤ n
    ge32 m = ground arith

    full : (p : Params) → p.dp_n ≡ 32 → add_group p ≡ none
    full p q = rw q refl
