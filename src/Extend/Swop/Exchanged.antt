-- ===== src/Extend/Swop/Exchanged.antt =====
-- swop_groups exchanges two places of the list of groups.
use mathlib.Core.Option.{some-injective}
use byedpi.Prelude.{
  ℕ, ◌≡◌, ◌≢◌, inl, refl, sym, ap, ◌∙◌, inr, ℕ_discrete, Option, none, some, List, [], ◌∷◌, map,
  arith, ◌==◌, if◌then◌else◌, Returns,
}
use byedpi.Extend.Groups.{In}
use byedpi.Extend.Swop.{Groups, exchanged, swop_groups}
use byedpi.Extend.Swop.Order.{
  first, Chain, Distinct, Lists, Before, Before-In, Around, Around-Before,
}
use byedpi.Extend.Swop.Places.{exchange, exchange_ptr}
use byedpi.Extend.Swop.Links.{Linked, Swopped, swop_groups-adjacent, swop_groups-distant}

exchange-exchange : (c n x : ℕ) → exchange c n (exchange c n x) ≡ x
exchange-exchange c n x = ground arith

module _ (c n : ℕ) where
  first-map : (xs : List ℕ) → first (map (exchange c n) xs) ≡ exchange_ptr c n (first xs)
  first-map [] = refl
  first-map (x ∷ xs) = refl

  In-map : (y : ℕ) (xs : List ℕ) → In y (map (exchange c n) xs) → In (exchange c n y) xs
  In-map y [] i = absurd i
  In-map y (x ∷ xs) (inl e) = inl (ap (exchange c n) e ∙ exchange-exchange c n x)
  In-map y (x ∷ xs) (inr i) = inr (In-map y xs i)

  Distinct-map : (xs : List ℕ) → Distinct xs → Distinct (map (exchange c n) xs)
  Distinct-map [] d = tt
  Distinct-map (x ∷ xs) (d, h) = (
    λ y i e.
        d (exchange c n y) (In-map y xs i) (sym (exchange-exchange c n x) ∙ ap (exchange c n) e),
    Distinct-map xs h,
  )

  Chain-map :
      (g g' : Groups) (p : Option ℕ) (xs : List ℕ)
      → ((x : ℕ) → In x xs → Linked g g' c n x)
      → Chain g p xs
      → Chain g' (exchange_ptr c n p) (map (exchange c n) xs)
  Chain-map g g' p [] l h = tt
  Chain-map g g' p (x ∷ xs) l (a, b, h) = (
    (l x (inl refl)).1 ∙ ap (exchange_ptr c n) a,
    (l x (inl refl)).0 ∙ ap (exchange_ptr c n) b ∙ sym (first-map xs),
    Chain-map g g' (some x) xs (λ y i. l y (inr i)) h,
  )

  head-ne : (h : ℕ) (xs : List ℕ) → Distinct xs → Before c n xs → first xs ≡ some h → h ≢ n
  head-ne h [] d b e q = absurd b
  head-ne h (x ∷ xs) (d, _) b e q = d n (behind b) (some-injective x h e ∙ q)
    where
      behind : Before c n (x ∷ xs) → In n xs
      behind (inl (f, i)) = i
      behind (inr k) = (Before-In c n xs k).1

  exchanged-exchange {ℓ} :
      {A : Type ℓ} (f : ℕ → A) (x : ℕ) → c ≢ n → exchanged f c n (exchange c n x) ≡ f x
  unfolding exchanged
  exchanged-exchange f x h = ground (arith, h)

-- If the groups are linked in the order `xs`, without repetitions, and `c` stands before `n`, then
-- swop_groups goes through no null pointer and leaves them linked, forward and backward, in the
-- order with the two exchanged, at the head as well; what each place of the list detects and its
-- level stay.
pub swop_groups-exchange :
    (g : Groups) (xs : List ℕ) (c n : ℕ)
    → Lists g xs
    → Before c n xs
    → Returns (swop_groups g c n) (λ g'.
      Lists g' (map (exchange c n) xs)
      × ((x : ℕ)
          → (g'.detect (exchange c n x) ≡ g.detect x)
            × (g'.auto_level (exchange c n x) ≡ g.auto_level x)))
swop_groups-exchange g xs c n (f, h, d) k =
    let (g', e, (q, r, t, l)) = done (ℕ_discrete a.b n) in
    (
      g',
      e,
      (
        (
          first-map c n xs
              ∙ ap (exchange_ptr c n) f
              ∙ ap some (at_head g.head (head-ne c n g.head xs d k f) ∙ sym q),
          Chain-map c n g g' none xs l h,
          Distinct-map c n xs d,
        ),
        λ x. (
          ap (λ (m : ℕ → ℕ). m (exchange c n x)) r ∙ exchanged-exchange c n g.detect x a.apart,
          ap (λ (m : ℕ → ℕ). m (exchange c n x)) t ∙ exchanged-exchange c n g.auto_level x a.apart,
        ),
      ),
    )
  where
    a : Around g xs c n
    a = Around-Before g xs c n h d k

    at_head : (y : ℕ) → y ≢ n → exchange c n y ≡ (if y == c then n else y)
    at_head y w = ground (arith, w)

    done : Dec (a.b ≡ n) → Returns (swop_groups g c n) (Swopped g xs c n)
    done (yes e) = swop_groups-adjacent g xs c n (Before-In c n xs k).0 (Before-In c n xs k).1 a e
    done (no e) = swop_groups-distant g xs c n (Before-In c n xs k).0 (Before-In c n xs k).1 a e
