-- ===== src/Extend/Swop/Links.antt =====
-- The pointers after swop_groups, when the two groups are neighbours and when they are not.
use mathlib.Core.Option.{some-injective}
use byedpi.Prelude.{
  ℕ, ◌≡◌, ◌≢◌, refl, sym, ap, ◌∙◌, true, false, Option, some, List, arith, ◌==◌, if◌then◌else◌,
  Returns,
}
use byedpi.Conev.Events.{set_at}
use byedpi.Extend.Groups.{In}
use byedpi.Extend.Swop.{Groups, exchanged, is_at, set_if, swop_groups}
use byedpi.Extend.Swop.Order.{Around}
use byedpi.Extend.Swop.Places.{
  exchange, exchange_ptr, set_if-at, exchanged_second, exchanged_first, exchanged_other,
  set_if-skip, is_at-false, exchange_ptr_same, exchange_ptr_first, exchange_ptr_second,
  exchange_ptr_comm, set_at_self, set_at-other, set_at-is_at, at_places, others,
}

-- The links of a group after the change.
abbrev pub Linked : Groups → Groups → ℕ → ℕ → ℕ → Type 0
Linked g g' c n x =
    (g'.next (exchange c n x) ≡ exchange_ptr c n (g.next x))
    × (g'.prev (exchange c n x) ≡ exchange_ptr c n (g.prev x))

-- What swop_groups leaves.
abbrev pub Swopped : Groups → List ℕ → ℕ → ℕ → Groups → Type 0
Swopped g xs c n g' =
    (g'.head ≡ (if g.head == c then n else g.head))
    × (g'.detect ≡ exchanged g.detect c n)
    × (g'.auto_level ≡ exchanged g.auto_level c n)
    × ((x : ℕ) → In x xs → Linked g g' c n x)

module _ (g : Groups) (xs : List ℕ) (c n : ℕ) (i : In c xs) (j : In n xs)
    (a : Around g xs c n) where
  prev_c-ne-c : g.prev c ≢ some c
  prev_c-ne-c e = (a.front c c i e).1 refl

  prev_c-ne-n : g.prev c ≢ some n
  prev_c-ne-n e = a.not_back (a.front n c i e).0

  next_n-ne-n : g.next n ≢ some n
  next_n-ne-n e = (a.behind n n j e).1 refl

  b-ne-c : a.b ≢ c
  b-ne-c e = (a.behind c a.b i a.next_c).1 (sym e)

  d-ne-n : a.d ≢ n
  d-ne-n = (a.front a.d n j a.prev_n).1

  -- The pointers to the next groups, when the neighbours in front of `c` are mended.
  abbrev next_after : ℕ → Option ℕ
  next_after = set_if (exchanged g.next c n) (g.prev c) n

  abbrev prev_after : ℕ → Option ℕ
  prev_after = set_if (exchanged g.prev c n) (g.next n) c

  next_after-n : next_after n ≡ some a.b
  next_after-n = set_if-skip _ (g.prev c) n n prev_c-ne-n ∙ exchanged_second g.next c n ∙ a.next_c

  next_after-c : next_after c ≡ g.next n
  next_after-c = set_if-skip _ (g.prev c) n c prev_c-ne-c ∙ exchanged_first g.next c n a.apart

  prev_after-n : prev_after n ≡ g.prev c
  prev_after-n = set_if-skip _ (g.next n) c n next_n-ne-n ∙ exchanged_second g.prev c n

  prev_after-c : prev_after c ≡ some a.d
  prev_after-c =
      set_if-skip _ (g.next n) c c a.not_back ∙ exchanged_first g.prev c n a.apart ∙ a.prev_n

  next_after-other :
      (x : ℕ) → x ≢ c → x ≢ n → next_after x ≡ (if is_at (g.prev c) x then some n else g.next x)
  next_after-other x h k =
      rw (set_if-at (exchanged g.next c n) (g.prev c) n x, exchanged_other g.next c n x h k)

  prev_after-other :
      (x : ℕ) → x ≢ c → x ≢ n → prev_after x ≡ (if is_at (g.next n) x then some c else g.prev x)
  prev_after-other x h k =
      rw (set_if-at (exchanged g.prev c n) (g.next n) c x, exchanged_other g.prev c n x h k)

  next_other :
      (x : ℕ)
      → In x xs
      → (if is_at (g.prev n) x then some c else if is_at (g.prev c) x then some n else g.next x)
        ≡ exchange_ptr c n (g.next x)
  next_other x k =
      others c n x g.next g.prev a.apart ((λ e. (a.behind x c k e).0), (λ e. (a.front x c i e).0))
        ((λ e. (a.behind x n k e).0), (λ e. (a.front x n j e).0))

  prev_other :
      (x : ℕ)
      → In x xs
      → (if is_at (g.next c) x then some n else if is_at (g.next n) x then some c else g.prev x)
        ≡ exchange_ptr c n (g.prev x)
  prev_other x k =
      others n c x g.prev g.next (λ e. a.apart (sym e))
        ((λ e. (a.front n x k e).0), (λ e. (a.behind n x j e).0))
        ((λ e. (a.front c x k e).0), (λ e. (a.behind c x i e).0))
      ∙ sym (exchange_ptr_comm c n (g.prev x))

  same_next_n : exchange_ptr c n (g.next n) ≡ g.next n
  same_next_n = exchange_ptr_same c n (g.next n) a.not_back next_n-ne-n

  same_prev_c : exchange_ptr c n (g.prev c) ≡ g.prev c
  same_prev_c = exchange_ptr_same c n (g.prev c) prev_c-ne-c prev_c-ne-n

  pub swop_groups-adjacent : a.b ≡ n → Returns (swop_groups g c n) (Swopped g xs c n)
  unfolding swop_groups
  swop_groups-adjacent q =
      let at_n : is_at (g.next c) n ≡ true = rw (a.next_c, q) (ground arith) in
      let next_c : g.next c ≡ some n = a.next_c ∙ ap some q in
      let prev_n : g.prev n ≡ some c = (a.behind c n i next_c).0 in
      rw (at_n, exchanged_second g.prev c n, next_after-c)
        (
          _,
          refl,
          (
            refl,
            refl,
            refl,
            λ x k. (
              at_places c n g.next (set_at next_after n (some c)) x
                  (set_at_self next_after n (some c)
                    ∙ sym (ap (exchange_ptr c n) next_c ∙ exchange_ptr_second c n a.apart))
                  (set_at-other next_after n (some c) c a.apart ∙ next_after-c ∙ sym same_next_n)
                  (λ h l.
                    set_at-other next_after n (some c) x l
                    ∙ next_after-other x h l
                    ∙ (rw (is_at-false (g.prev n) x (λ e. h (some-injective x c (sym e ∙ prev_n))))
                        at (next_other x k))),
              at_places c n g.prev (set_at prev_after c (some n)) x
                  (set_at-other prev_after c (some n) n (λ e. a.apart (sym e))
                    ∙ prev_after-n
                    ∙ sym same_prev_c)
                  (set_at_self prev_after c (some n)
                    ∙ sym (ap (exchange_ptr c n) prev_n ∙ exchange_ptr_first c n))
                  (λ h l.
                    set_at-other prev_after c (some n) x h
                    ∙ prev_after-other x h l
                    ∙ (rw (is_at-false (g.next c) x (λ e. l (some-injective x n (sym e ∙ next_c))))
                        at (prev_other x k))),
            ),
          ),
        )

  pub swop_groups-distant : a.b ≢ n → Returns (swop_groups g c n) (Swopped g xs c n)
  unfolding swop_groups
  swop_groups-distant q =
      let at_n : is_at (g.next c) n ≡ false = rw (a.next_c) (ground arith) in
      let at_c : set_at prev_after a.b (some n) c ≡ some a.d =
        set_at-other prev_after a.b (some n) c (λ e. b-ne-c (sym e)) ∙ prev_after-c in
      let d-ne-c : a.d ≢ c = λ e.
        q (
          some-injective a.b n (sym a.next_c ∙ ap g.next (sym e) ∙ (a.front a.d n j a.prev_n).0)) in
      rw (at_n, exchanged_second g.prev c n, next_after-c, next_after-n, at_c)
        (
          _,
          refl,
          (
            refl,
            refl,
            refl,
            λ x k. (
              at_places c n g.next (set_at next_after a.d (some c)) x
                  (set_at-other next_after a.d (some c) n (λ e. d-ne-n (sym e))
                    ∙ next_after-n
                    ∙ sym (ap (exchange_ptr c n) a.next_c ∙ same_some a.b b-ne-c q))
                  (set_at-other next_after a.d (some c) c (λ e. d-ne-c (sym e))
                    ∙ next_after-c
                    ∙ sym same_next_n)
                  (λ h l.
                    rw
                      (
                        set_at-is_at next_after a.d (some c) x (g.prev n) a.prev_n,
                        next_after-other x h l,
                      )
                      (next_other x k)),
              at_places c n g.prev (set_at prev_after a.b (some n)) x
                  (set_at-other prev_after a.b (some n) n (λ e. q (sym e))
                    ∙ prev_after-n
                    ∙ sym same_prev_c)
                  (at_c ∙ sym (ap (exchange_ptr c n) a.prev_n ∙ same_some a.d d-ne-c d-ne-n))
                  (λ h l.
                    rw
                      (
                        set_at-is_at prev_after a.b (some n) x (g.next c) a.next_c,
                        prev_after-other x h l,
                      )
                      (prev_other x k)),
            ),
          ),
        )
    where
      same_some : (y : ℕ) → y ≢ c → y ≢ n → exchange_ptr c n (some y) ≡ some y
      same_some y h k =
          exchange_ptr_same c n (some y) (λ e. h (some-injective y c e))
            (λ e. k (some-injective y n e))
