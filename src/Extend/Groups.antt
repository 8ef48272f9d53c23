-- ===== src/Extend/Groups.antt =====
-- The search of find_dp through the ring of groups, apart from the test of one group.
use byedpi.Prelude.{
  ℕ, zero, suc, ◌+◌, ◌<◌, ◌≡◌, ◌⊎◌, refl, inl, inr, Bool, true, Option, none, some, List, [], ◌∷◌,
  ◌∙◌, ap, arith, length, Returns, Bool-cases, if◌then◌else◌, ◌>>=◌,
}
use byedpi.Prelude.Word.{
  Word, or_word, same_word, Within, Within-refl, Within-trans, or_word-Within, Within-or_left,
  Within-or_right, same_word-Within,
}

module _ {G : Type 0} where
  abbrev pub start : List G → List G → List G
  start [] gs = gs
  start (g ∷ r) gs = g ∷ r

  abbrev pub In : G → List G → Type 0
  In g [] = ⊥
  In g (h ∷ gs) = (g ≡ h) ⊎ In g gs

-- What the search reads of a group is its bit.
module _ {G : Type 0} (bit : G → Word) where
  abbrev pub AllIn : List G → Word → Type 0
  AllIn [] m = Unit
  AllIn (g ∷ gs) m = Within (bit g) m × AllIn gs m

  -- Every mask that has the bits of all groups is the full one.
  abbrev pub Complete : Word → List G → Type 0
  Complete full gs = (m : Word) → AllIn gs m → Within full m

  pub Within-In :
      (full : Word) (gs : List G) (g : G) → In g gs → AllIn gs full → Within (bit g) full
  Within-In full [] g i a = absurd i
  Within-In full (h ∷ gs) g (inl e) a = rw e a.0
  Within-In full (h ∷ gs) g (inr i) a = Within-In full gs g i a.1

module _ {G : Type 0} (bit : G → Word) (full : Word) (test : G → Word → Option Bool) where
  -- for (; ; dp = dp->next): `rest` is the list from `dp` on, empty at the null behind the last
  -- group. The result is the group and `dp_mask`; `none` also for a null pointer that is read.
  unfoldable pub find_loop : ℕ → List G → List G → Word → Option (Option G × Word)
  find_loop zero gs rest mask = none
  find_loop (suc fuel) gs rest mask =
      let again = λ (r : List G) (m : Word). find_loop fuel gs r m in
      if same_word mask full then some (none, mask) else elim (start rest gs) [
        | [] ↦ none
        | g ∷ r ↦ (do
          ok ← test g mask
          if ok then some (some g, mask) else again r (or_word mask (bit g)))
      ]

  abbrev pub Total : List G → Type 0
  Total gs = (g : G) → In g gs → (m : Word) → Returns (test g m) (λ _. Unit {0})

  -- The groups that are found are groups of the ring that pass the test under a mask which
  -- contains the old one.
  abbrev pub Found : List G → Word → Option G × Word → Type 0
  Found gs mask (none, m) = same_word m full ≡ true
  Found gs mask (some g, m) = In g gs × (test g m ≡ some true) × Within mask m

  -- One round, when the pointer is at a group.
  find_loop-round :
      (fuel : ℕ) (gs : List G) (g : G) (r : List G) (mask : Word)
      → In g gs
      → Total gs
      → Within mask full
      → Within (bit g) full
      → (Within mask (or_word mask (bit g))
          → Returns (find_loop fuel gs r (or_word mask (bit g))) (Found gs mask))
      → Returns (find_loop (suc fuel) gs (g ∷ r) mask) (Found gs mask)
  unfolding find_loop
  find_loop-round fuel gs g r mask i t w v k = elim (Bool-cases (same_word mask full)) [
    | inl y ↦ rw y ((none, mask), refl, y)
    | inr n ↦
        let (ok, e, _) = t g i mask in
        rw (n, e)
          (elim (Bool-cases ok) [
            | inl y ↦ rw y ((some g, mask), refl, (i, e ∙ ap some y, Within-refl mask))
            | inr z ↦ rw z (k (Within-or_left mask (bit g) full w v))
          ])
  ]

  Found-mono :
      (gs : List G) (a b : Word) (r : Option G × Word) → Within a b → Found gs b r → Found gs a r
  Found-mono gs a b (none, m) h f = f
  Found-mono gs a b (some g, m) h f = (f.0, f.1, Within-trans a b m h f.2)

  -- The rounds up to the end of the list, when the groups in front were all tried.
  find_loop-last :
      (fuel : ℕ) (gs rest : List G) (mask : Word)
      → length rest < fuel
      → ((g : G) → In g rest → In g gs)
      → Total gs
      → AllIn bit gs full
      → Within mask full
      → ((m : Word) → Within mask m → AllIn bit rest m → Within full m)
      → Returns (find_loop fuel gs rest mask) (Found gs mask)
  unfolding find_loop
  find_loop-last zero gs rest mask h i t a w c = absurd (omega arith)
  find_loop-last (suc fuel) gs [] mask h i t a w c =
      let done = same_word-Within mask full w (c mask (Within-refl mask) tt) in
      rw done ((none, mask), refl, done)
  find_loop-last (suc fuel) gs (g ∷ r) mask h i t a w c =
      let v = Within-In bit full gs g (i g (inl refl)) a in
      let more = or_word mask (bit g) in
      find_loop-round fuel gs g r mask (i g (inl refl)) t w v (λ grows.
        let (res, e, f) =
          find_loop-last fuel gs r more (omega arith) (λ x y. i x (inr y)) t a
            (or_word-Within mask (bit g) full w v)
            (λ m u all.
              c m (Within-trans mask more m grows u)
                (Within-trans (bit g) more m (Within-or_right mask (bit g) full w v) u, all)) in
        (res, e, Found-mono gs mask more res grows f))

  -- A null pointer goes on at the head of the list.
  find_loop-wrap :
      (fuel : ℕ) (gs : List G) (mask : Word) → find_loop fuel gs [] mask ≡ find_loop fuel gs gs mask
  unfolding find_loop
  find_loop-wrap zero gs mask = refl
  find_loop-wrap (suc fuel) [] mask = refl
  find_loop-wrap (suc fuel) (g ∷ gs) mask = refl

  -- From any pointer into the ring, as many rounds as it has groups behind the pointer, and once
  -- more as many as it has groups, are enough for the search: it ends at a group of the ring that
  -- passes the test under a mask with all the old bits, or with the full mask.
  pub find_loop-Found :
      (fuel : ℕ) (gs rest : List G) (mask : Word)
      → length rest + length gs < fuel
      → ((g : G) → In g rest → In g gs)
      → Total gs
      → AllIn bit gs full
      → Complete bit full gs
      → Within mask full
      → Returns (find_loop fuel gs rest mask) (Found gs mask)
  find_loop-Found zero gs rest mask h i t a c w = absurd (omega arith)
  find_loop-Found (suc fuel) gs [] mask h i t a c w =
      rw (find_loop-wrap (suc fuel) gs mask)
        (find_loop-last (suc fuel) gs gs mask (omega arith) (λ g x. x) t a w (λ m u all. c m all))
  find_loop-Found (suc fuel) gs (g ∷ r) mask h i t a c w =
      let v = Within-In bit full gs g (i g (inl refl)) a in
      let more = or_word mask (bit g) in
      find_loop-round fuel gs g r mask (i g (inl refl)) t w v (λ grows.
        let (res, e, f) =
          find_loop-Found fuel gs r more (omega arith) (λ x y. i x (inr y)) t a c
            (or_word-Within mask (bit g) full w v) in
        (res, e, Found-mono gs mask more res grows f))
