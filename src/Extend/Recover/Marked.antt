-- ===== src/Extend/Recover/Marked.antt =====
-- The masks of the search of on_trigger tell which groups stand before the one that it finds.
use byedpi.Prelude.{
  ℕ, zero, suc, ◌≤◌, ◌≡◌, ◌⊎◌, inl, inr, refl, ◌&&◌, ◌||◌, not, Bool, true, false, Option, none,
  some, List, [], ◌∷◌, map, arith, length, has, ◌==◌, if-cases, Bool-cases,
}
use byedpi.Prelude.Word.{Word, meets, or_word, without, is_empty}
use byedpi.Extend.Groups.{In}
use byedpi.Extend.Filter.{Group}
use byedpi.Extend.Trigger.{auto_onreconn, next_loop}
use byedpi.Extend.Swop.{Groups}
use byedpi.Extend.Swop.Order.{first, Chain, Before}
use byedpi.Extend.Recover.{walk}

-- From the first of the list of groups, the pointers lead through the list.
pub walk-Chain :
    (fuel : ℕ) (g : Groups) (p : Option ℕ) (xs : List ℕ)
    → Chain g p xs
    → length xs ≤ fuel
    → walk fuel g (first xs) ≡ xs
unfolding walk
walk-Chain zero g p [] h l = refl
walk-Chain zero g p (x ∷ xs) h l = absurd (omega arith)
walk-Chain (suc fuel) g p [] h l = refl
walk-Chain (suc fuel) g p (x ∷ xs) (a, b, h) l =
    rw (b, walk-Chain fuel g (some x) xs h (omega arith)) refl

-- What makes a word no longer meet `b` meets `b`.
pub meets-without :
    (b u g : Word) → meets b u ≡ true → meets b (without u g) ≡ false → meets g b ≡ true
unfolding meets without
meets-without [] u g h k = absurd cc
meets-without (x ∷ b) [] g h k = absurd cc
meets-without (x ∷ b) (y ∷ u) [] h k = absurd cc
meets-without (x ∷ b) (y ∷ u) (z ∷ g) h k = ground (arith, meets-without b u g)

module _ (view : ℕ → Group) (b : Word) where
  -- A group `j` that shares a bit with `b` stands before `i`.
  abbrev pub Passed : ℕ → List ℕ → Type 0
  Passed i xs = (j : ℕ) × (meets (view j).bit b ≡ true) × Before j i xs

  -- The search found the group of `i`, which is not in the mask and fits the event; and if it
  -- dropped all bits of `b`, it passed a group with one of them.
  abbrev pub Found : List ℕ → ℕ → Bool → Word → Option Group × Word × Word → Type 0
  Found xs type can_reconn start (none, u, m) = Unit
  Found xs type can_reconn start (some dp, u, m) =
      (i : ℕ) × (dp ≡ view i)
      × In i xs
      × (meets dp.bit m ≡ false)
      × ((dp.detect == 0 || has dp.detect type) ≡ true)
      × ((not (has dp.auto_level auto_onreconn) || can_reconn) ≡ true)
      × (meets b start ≡ true → meets b u ≡ false → Passed i xs)

  three : (a b c : Bool) → (not a && b && c) ≡ true → (a ≡ false) × (b ≡ true) × (c ≡ true)
  three a b c h = ground arith

  Found-later :
      (x : ℕ) (xs : List ℕ) (type : ℕ) (can_reconn : Bool) (start : Word)
      (r : Option Group × Word × Word)
      → Found xs type can_reconn (without start (view x).bit) r
      → Found (x ∷ xs) type can_reconn start r
  Found-later x xs type can_reconn start (none, u, m) h = tt
  Found-later x xs type can_reconn start (some dp, u, m) (i, e, j, p, q, t, l) =
      (i, e, inr j, p, q, t, λ y n. passed y n (Bool-cases (meets b (without start (view x).bit))))
    where
      passed :
          meets b start ≡ true
          → meets b u ≡ false
          → (meets b (without start (view x).bit) ≡ true)
            ⊎ (meets b (without start (view x).bit) ≡ false)
          → Passed i (x ∷ xs)
      passed y n (inl s) = let (j', w, k) = l s n in (j', w, inr k)
      passed y n (inr z) = (x, meets-without b start (view x).bit y z, inl (refl, j))

  -- A group that the loop of on_trigger finds is one of the list, is not in the mask that it leaves, detects the
  -- type or nothing, and needs no reconnection unless there can be one. If `b` had a bit in the mask
  -- that it started with and has none in the one that is left, a group that shares a bit with `b`
  -- stands before the one that was found.
  pub next_loop-Found :
      (xs : List ℕ) (type : ℕ) (can_reconn : Bool) (start mask : Word)
      → Found xs type can_reconn start (next_loop (map view xs) type can_reconn start mask)
  unfolding next_loop
  next_loop-Found [] type can_reconn start mask = tt
  next_loop-Found (x ∷ xs) type can_reconn start mask =
      if-cases (Found (x ∷ xs) type can_reconn start) (is_empty start && (view x).detect == 0) _ _
        (λ y. tt)
        (λ z.
          if-cases (Found (x ∷ xs) type can_reconn start)
            (not (meets (view x).bit mask)
              && ((view x).detect == 0 || has (view x).detect type)
              && (not (has (view x).auto_level auto_onreconn) || can_reconn))
            (some (view x), start, mask) _
            (λ y.
              let (p, q, t) =
                three (meets (view x).bit mask) ((view x).detect == 0 || has (view x).detect type)
                  (not (has (view x).auto_level auto_onreconn) || can_reconn) y in
              (x, refl, inl refl, p, q, t, λ l n. absurd cc))
            (λ n. Found-later x xs type can_reconn start _ (
              next_loop-Found xs type can_reconn (without start (view x).bit)
                (or_word mask (view x).bit))))
