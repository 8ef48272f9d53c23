-- ===== src/Extend/Swop/Order.antt =====
-- The linked list of groups: which stands before which, and what the pointers between them are.
use mathlib.Core.Option.{some-injective}
use byedpi.Prelude.{
  ℕ, ◌≡◌, ◌≢◌, ◌⊎◌, inl, sym, ap, ◌∙◌, subst, inr, Option, none, some, List, [], ◌∷◌,
}
use byedpi.Extend.Groups.{In}
use byedpi.Extend.Swop.{Groups}

abbrev pub first : List ℕ → Option ℕ
first [] = none
first (x ∷ xs) = some x

-- The groups `xs` are linked in that order, behind the one that `p` points to.
abbrev pub Chain : Groups → Option ℕ → List ℕ → Type 0
Chain g p [] = Unit
Chain g p (x ∷ xs) = (g.prev x ≡ p) × (g.next x ≡ first xs) × Chain g (some x) xs

abbrev pub Distinct : List ℕ → Type 0
Distinct [] = Unit
Distinct (x ∷ xs) = ((y : ℕ) → In y xs → x ≢ y) × Distinct xs

-- The list of groups is `xs`.
abbrev pub Lists : Groups → List ℕ → Type 0
Lists g xs = (first xs ≡ some g.head) × Chain g none xs × Distinct xs

-- `c` stands before `n`.
abbrev pub Before : ℕ → ℕ → List ℕ → Type 0
Before c n [] = ⊥
Before c n (x ∷ xs) = ((x ≡ c) × In n xs) ⊎ Before c n xs

pub Before-In : (c n : ℕ) (xs : List ℕ) → Before c n xs → In c xs × In n xs
Before-In c n [] b = absurd b
Before-In c n (x ∷ xs) (inl (e, i)) = (inl (sym e), inr i)
Before-In c n (x ∷ xs) (inr b) = let (i, j) = Before-In c n xs b in (inr i, inr j)

-- In a list without repetitions nothing stands both before and behind another.
pub Before-apart : (c n : ℕ) (xs : List ℕ) → Distinct xs → Before c n xs → Before n c xs → ⊥
Before-apart c n [] d b b' = absurd b
Before-apart c n (x ∷ xs) (d, h) (inl (e, i)) (inl (f, j)) = d n i f
Before-apart c n (x ∷ xs) (d, h) (inl (e, i)) (inr b) = d c (Before-In n c xs b).1 e
Before-apart c n (x ∷ xs) (d, h) (inr b) (inl (f, j)) = d n (Before-In c n xs b).1 f
Before-apart c n (x ∷ xs) (d, h) (inr b) (inr b') = Before-apart c n xs h b b'

module _ (g : Groups) where
  pub first-In : (y : ℕ) (xs : List ℕ) → first xs ≡ some y → In y xs
  first-In y [] e = absurd cc
  first-In y (x ∷ xs) e = inl (sym (some-injective x y e))

  -- The next group stands behind, and points back.
  next-Before :
      (p : Option ℕ) (xs : List ℕ) (x y : ℕ)
      → Chain g p xs
      → In x xs
      → g.next x ≡ some y
      → Before x y xs × (g.prev y ≡ some x)
  next-Before p [] x y h i e = absurd i
  next-Before p (z ∷ []) x y (a, b, h) (inl q) e = absurd cc
  next-Before p (z ∷ w ∷ zs) x y (a, b, h) (inl q) e =
      let f : first (w ∷ zs) ≡ some y = sym b ∙ ap g.next (sym q) ∙ e in
      (
        inl (sym q, first-In y (w ∷ zs) f),
        ap g.prev (sym (some-injective w y f)) ∙ h.0 ∙ ap some (sym q),
      )
  next-Before p (z ∷ zs) x y (a, b, h) (inr i) e =
      let (k, j) = next-Before (some z) zs x y h i e in (inr k, j)

  prev-next :
      (p : Option ℕ) (xs : List ℕ) (x y : ℕ)
      → Chain g p xs
      → In y xs
      → g.prev y ≡ some x
      → ((p ≡ some x) × (first xs ≡ some y)) ⊎ ((g.next x ≡ some y) × In x xs)
  prev-next p [] x y h i e = absurd i
  prev-next p (z ∷ zs) x y (a, b, h) (inl q) e =
      inl (sym a ∙ ap g.prev (sym q) ∙ e, ap some (sym q))
  prev-next p (z ∷ zs) x y (a, b, h) (inr i) e = elim (prev-next (some z) zs x y h i e) [
    | inl (f, k) ↦ let q = some-injective z x f in inr (ap g.next (sym q) ∙ b ∙ k, inl (sym q))
    | inr (f, k) ↦ inr (f, inr k)
  ]

  In-prev :
      (p : ℕ) (xs : List ℕ) (n : ℕ) → Chain g (some p) xs → In n xs → (d : ℕ) × (g.prev n ≡ some d)
  In-prev p [] n h i = absurd i
  In-prev p (z ∷ zs) n (a, b, h) (inl q) = (p, ap g.prev q ∙ a)
  In-prev p (z ∷ zs) n (a, b, h) (inr i) = In-prev z zs n h i

  Before-neighbours :
      (p : Option ℕ) (xs : List ℕ) (c n : ℕ)
      → Chain g p xs
      → Before c n xs
      → ((b : ℕ) × (g.next c ≡ some b)) × ((d : ℕ) × (g.prev n ≡ some d))
  Before-neighbours p [] c n h b = absurd b
  Before-neighbours p (z ∷ []) c n h (inl (e, i)) = absurd i
  Before-neighbours p (z ∷ w ∷ zs) c n (a, b, h) (inl (e, i)) =
      ((w, ap g.next (sym e) ∙ b), In-prev z (w ∷ zs) n h i)
  Before-neighbours p (z ∷ zs) c n (a, b, h) (inr k) = Before-neighbours (some z) zs c n h k

  -- What is known of the links around `c` and `n`.
  pub record Around (xs : List ℕ) (c n : ℕ) : Type 0 where
    pub apart : c ≢ n
    pub behind : (x y : ℕ) → In x xs → g.next x ≡ some y → (g.prev y ≡ some x) × (x ≢ y)
    pub front : (x y : ℕ) → In y xs → g.prev y ≡ some x → (g.next x ≡ some y) × (x ≢ y)
    pub not_back : g.next n ≢ some c
    pub b : ℕ
    pub next_c : g.next c ≡ some b
    pub d : ℕ
    pub prev_n : g.prev n ≡ some d

  pub Around-Before :
      (xs : List ℕ) (c n : ℕ) → Chain g none xs → Distinct xs → Before c n xs → Around xs c n
  Around-Before xs c n h d k =
      let ((b, e), (d', f)) = Before-neighbours none xs c n h k in
      record {
        apart = λ q.
            Before-apart c n xs d k
              (subst (λ t. Before n t xs) (sym q) (subst (λ t. Before t n xs) q k));
        behind = λ x y i e. let (l, m) = next-Before none xs x y h i e in (m, never x y l);
        front = λ x y i e. elim (prev-next none xs x y h i e) [
          | inl (q, _) ↦ absurd cc
          | inr (q, j) ↦ (q, never x y (next-Before none xs x y h j q).0)
        ];
        not_back =
            λ q. Before-apart c n xs d k (next-Before none xs n c h (Before-In c n xs k).1 q).0;
        b = b;
        next_c = e;
        d = d';
        prev_n = f;
      }
    where
      never : (x y : ℕ) → Before x y xs → x ≢ y
      never x y l q =
          Before-apart x y xs d l
            (subst (λ t. Before y t xs) (sym q) (subst (λ t. Before t y xs) q l))
