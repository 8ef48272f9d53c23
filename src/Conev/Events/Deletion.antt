-- ===== src/Conev/Events/Deletion.antt =====
-- Taking an entry out of the event table.
use byedpi.Prelude.{
  ℕ, ◌-◌, ◌<◌, ◌≡◌, ◌≢◌, refl, sym, ap, ◌∙◌, inl, inr, true, false, arith, ◌==◌, if◌then◌else◌,
  Bool-cases,
}
use byedpi.Conev.Events.{Eval, Poolhd, set_at, is_open}
use byedpi.Conev.Events.Table.{Live, IsValid, set_at-same, set_at-other}

-- The two places change their contents.
abbrev swap : ℕ → ℕ → ℕ → ℕ
swap a b i = if i == b then a else if i == a then b else i

swap-links :
    (links : ℕ → ℕ) (a b i : ℕ)
    → set_at (set_at links a (links b)) b (links a) i ≡ links (swap a b i)
swap-links links a b i = elim (Bool-cases (i == b)) [
  | inl y ↦ rw y refl
  | inr n ↦ rw n (elim (Bool-cases (i == a)) [ inl y ↦ rw y refl | inr m ↦ rw m refl ])
]

swap-same : (a b i j : ℕ) → swap a b i ≡ swap a b j → i ≡ j
swap-same a b i j e = ground arith

swap-lt : (a b n i : ℕ) → a < n → b < n → i < n → swap a b i < n
swap-lt a b n i h k l = ground arith

twice-middle {ℓ} :
    {A : Type ℓ} (f : ℕ → A) (a b : ℕ) (x y : A) (i : ℕ)
    → i ≢ b
    → i ≡ a
    → set_at (set_at f a x) b y i ≡ x
twice-middle f a b x y i n e = set_at-other (set_at f a x) b i y n ∙ set_at-same f a i x e

pub twice-other {ℓ} :
    {A : Type ℓ} (f : ℕ → A) (a b : ℕ) (x y : A) (i : ℕ)
    → i ≢ b
    → i ≢ a
    → set_at (set_at f a x) b y i ≡ f i
twice-other f a b x y i n m = set_at-other (set_at f a x) b i y n ∙ set_at-other f a i x m

-- An entry that is live after one was closed.
pub still_live :
    (items : ℕ → Eval) (val w : ℕ) (e : Eval)
    → is_open e.fd ≡ false
    → is_open (set_at items val e w).fd ≡ true
    → (w ≢ val) × (is_open (items w).fd ≡ true)
still_live items val w e f h = elim (Bool-cases (w == val)) [
  | inl y ↦ absurd (ground arith)
  | inr n ↦ (ground arith, ground arith)
]

module _ (pool : Poolhd) (v : IsValid pool) where
  links-index : (i w : ℕ) → i < pool.count → pool.links i ≡ w → i ≡ (pool.items w).index
  links-index i w h e = sym (v.used i h).1 ∙ ap (λ u. (pool.items u).index) e

  -- Nothing but the descriptor and the index of an entry matters.
  pub same_view-IsValid :
      (pool' : Poolhd)
      → pool'.max ≡ pool.max
      → pool'.count ≡ pool.count
      → ((i : ℕ) → pool'.links i ≡ pool.links i)
      → ((w : ℕ)
          → ((pool'.items w).fd ≡ (pool.items w).fd)
            × ((pool'.items w).index ≡ (pool.items w).index))
      → IsValid pool'
  same_view-IsValid pool' m c l f = record {
    fits = omega (arith, v.fits);
    used = λ i h.
        let (a, b) = v.used i (omega arith) in
        let (d, x) = f (pool.links i) in rw (l i) (ap is_open d ∙ a, x ∙ b);
    live = λ w h.
        let (d, x) = f w in
        let (a, b) = v.live w (ap is_open (sym d) ∙ h) in rw (x, c) (a, l (pool.items w).index ∙ b);
    differ = λ i j h k e. v.differ i j (omega arith) (omega arith) (sym (l i) ∙ (e ∙ l j));
  }

  module _ (val : ℕ) (alive : Live pool val) where
    pub at_index : ((pool.items val).index < pool.count) × (pool.links (pool.items val).index ≡ val)
    at_index = v.live val alive

    -- The last entry is the one that is closed.
    pub unlink_last-IsValid :
        (e : Eval)
        → is_open e.fd ≡ false
        → pool.links (pool.count - 1) ≡ val
        → IsValid (record pool { count = pool.count - 1; items = set_at pool.items val e })
    unlink_last-IsValid e f s =
        let (a, b) = at_index in
        let top = links-index (pool.count - 1) val (omega arith) s in
        record {
          fits = omega (arith, v.fits);
          used = λ i h.
              let n : pool.links i ≢ val = λ q. omega (arith, links-index i val (omega arith) q) in
              rw (set_at-other pool.items val (pool.links i) e n) (v.used i (omega arith));
          live = λ w h.
              let (n, o) = still_live pool.items val w e f h in
              let (c, d) = v.live w o in
              let m : (pool.items w).index ≢ pool.count - 1 =
                λ q. n (sym d ∙ (ap pool.links q ∙ s)) in
              rw (set_at-other pool.items val w e n) (omega arith, d);
          differ = v.differ;
        }

    -- Another entry takes its place.
    pub unlink_other-IsValid :
        (e e' : Eval)
        → is_open e.fd ≡ false
        → e'.fd ≡ (pool.items (pool.links (pool.count - 1))).fd
        → e'.index ≡ (pool.items val).index
        → pool.links (pool.count - 1) ≢ val
        → IsValid (record pool {
          count = pool.count - 1;
          links =
              set_at
                (set_at pool.links (pool.items val).index (pool.links (pool.count - 1)))
                (pool.count - 1)
                val;
          items = set_at (set_at pool.items val e) (pool.links (pool.count - 1)) e';
        })
    unlink_other-IsValid e e' f g h s =
        let (a, b) = at_index in
        let last = pool.count - 1 in
        let ev = pool.links last in
        let index = (pool.items val).index in
        let off : index ≢ last = λ q. s (ap pool.links (sym q) ∙ b) in
        let (ev_open, ev_index) = v.used last (omega arith) in
        let items' = set_at (set_at pool.items val e) ev e' in
        let links' = set_at (set_at pool.links index ev) last val in
        record {
          fits = omega (arith, v.fits);
          used = λ i l. elim (Bool-cases (i == index)) [
            | inl y ↦
                let q : i ≡ index = ground arith in
                let r : items' (links' i) ≡ e' =
                  ap items' (twice-middle pool.links index last ev val i (omega arith) q)
                  ∙ set_at-same (set_at pool.items val e) ev ev e' refl in
                (
                  ap (λ u. is_open u.fd) r ∙ (ap is_open g ∙ ev_open),
                  ap (λ u. u.index) r ∙ (h ∙ sym q),
                )
            | inr n ↦
                let r : items' (links' i) ≡ pool.items (pool.links i) =
                  ap items'
                    (twice-other pool.links index last ev val i (omega arith) (ground arith))
                  ∙ twice-other pool.items val ev e e' (pool.links i)
                      (λ q. omega (arith, links-index i ev (omega arith) q, ev_index))
                      (λ q. ground (arith, links-index i val (omega arith) q)) in
                rw r (v.used i (omega arith))
          ];
          live = λ w l. elim (Bool-cases (w == ev)) [
            | inl y ↦
                let q : w ≡ ev = ground arith in
                let r : items' w ≡ e' = set_at-same (set_at pool.items val e) ev w e' q in
                let x : (items' w).index ≡ index = ap (λ u. u.index) r ∙ h in
                (
                  omega (arith, x),
                  twice-middle pool.links index last ev val (items' w).index (omega (arith, x)) x
                      ∙ sym q,
                )
            | inr n ↦
                let n' : w ≢ ev = ground arith in
                let r = set_at-other (set_at pool.items val e) ev w e' n' in
                let (m, o) = still_live pool.items val w e f (ap (λ u. is_open u.fd) (sym r) ∙ l) in
                let (c, d) = v.live w o in
                let x = ap (λ u. u.index) (twice-other pool.items val ev e e' w n' m) in
                let at_last : (pool.items w).index ≢ last = λ q. n' (sym d ∙ ap pool.links q) in
                let at_index : (pool.items w).index ≢ index =
                  λ q. m (sym d ∙ (ap pool.links q ∙ b)) in
                (
                  omega (arith, x),
                  ap links' x ∙ (twice-other pool.links index last ev val _ at_last at_index ∙ d),
                )
          ];
          differ = λ i j l m q. swap-same index last i j (
              v.differ (swap index last i) (swap index last j)
                (swap-lt index last pool.max i (omega (arith, v.fits)) (omega (arith, v.fits)) l)
                (swap-lt index last pool.max j (omega (arith, v.fits)) (omega (arith, v.fits)) m)
                (sym (swapped i b) ∙ (q ∙ swapped j b)));
        }
      where
        swapped :
            (i : ℕ)
            → pool.links (pool.items val).index ≡ val
            → set_at
                (set_at pool.links (pool.items val).index (pool.links (pool.count - 1)))
                (pool.count - 1)
                val
                i
              ≡ pool.links (swap (pool.items val).index (pool.count - 1) i)
        swapped i b =
            ap
              (λ x.
                set_at (set_at pool.links (pool.items val).index (pool.links (pool.count - 1)))
                  (pool.count - 1) x i)
              (sym b)
            ∙ swap-links pool.links (pool.items val).index (pool.count - 1) i
