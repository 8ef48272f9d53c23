-- ===== src/Conev/Events/Table.antt =====
-- The links of the event table and the indices of its entries agree, whatever is added or deleted.
use byedpi.Prelude.{
  ℕ, ◌+◌, ◌≤◌, ◌<◌, ◌≡◌, ◌≢◌, sym, ap, ◌∙◌, inl, inr, true, false, arith, ◌==◌, Bool-cases,
}
use byedpi.Conev.Events.{Eval, Poolhd, set_at, is_open, init_pool}

abbrev pub Live : Poolhd → ℕ → Type 0
Live pool v = is_open (pool.items v).fd ≡ true

-- The used entries are the live ones, each at its index; the links are all different.
pub record IsValid (pool : Poolhd) : Type 0 where
  pub fits : pool.count ≤ pool.max
  pub used :
      (i : ℕ) → i < pool.count → Live pool (pool.links i) × ((pool.items (pool.links i)).index ≡ i)
  pub live :
      (v : ℕ)
      → Live pool v
      → ((pool.items v).index < pool.count) × (pool.links (pool.items v).index ≡ v)
  pub differ : (i j : ℕ) → i < pool.max → j < pool.max → pool.links i ≡ pool.links j → i ≡ j

pub init_pool-IsValid : (n : ℕ) → IsValid (init_pool n)
unfolding init_pool
init_pool-IsValid n = record {
  fits = omega arith;
  used = λ i l. absurd (omega arith);
  live = λ v e. absurd cc;
  differ = λ i j l m e. e;
}

pub set_at-same {ℓ} : {A : Type ℓ} (f : ℕ → A) (i j : ℕ) (x : A) → j ≡ i → set_at f i x j ≡ x
set_at-same f i j x e = ground arith

pub set_at-other {ℓ} : {A : Type ℓ} (f : ℕ → A) (i j : ℕ) (x : A) → j ≢ i → set_at f i x j ≡ f j
set_at-other f i j x e = ground arith

module _ (pool : Poolhd) (v : IsValid pool) (room : pool.count < pool.max) where
  -- The first free entry is none of those in use, and is closed.
  pub free-apart : (i : ℕ) → i < pool.count → pool.links i ≢ pool.links pool.count
  free-apart i l q = omega (arith, v.differ i pool.count (omega arith) room q)

  pub free-closed : is_open (pool.items (pool.links pool.count)).fd ≡ false
  free-closed = elim (Bool-cases (is_open (pool.items (pool.links pool.count)).fd)) [
    | inr n ↦ n
    | inl y ↦ let (l, q) = v.live (pool.links pool.count) y in absurd (free-apart _ l q)
  ]

  -- Taking it into use.
  pub push-IsValid :
      (e : Eval)
      → is_open e.fd ≡ true
      → e.index ≡ pool.count
      → IsValid (record pool {
        count = pool.count + 1;
        items = set_at pool.items (pool.links pool.count) e;
      })
  push-IsValid e o x =
      let free = pool.links pool.count in
      let items' = set_at pool.items free e in
      record {
        fits = omega arith;
        used = λ i l. elim (Bool-cases (i == pool.count)) [
          | inl y ↦
              let q : i ≡ pool.count = ground arith in
              let r : items' (pool.links i) ≡ e =
                set_at-same pool.items free (pool.links i) e (ap pool.links q) in
              (ap (λ u. is_open u.fd) r ∙ o, ap (λ u. u.index) r ∙ (x ∙ sym q))
          | inr n ↦
              let l' : i < pool.count = ground arith in
              rw (set_at-other pool.items free (pool.links i) e (free-apart i l')) (v.used i l')
        ];
        live = λ w h. elim (Bool-cases (w == free)) [
          | inl y ↦
              let q : w ≡ free = ground arith in
              let r : (items' w).index ≡ pool.count =
                ap (λ u. u.index) (set_at-same pool.items free w e q) ∙ x in
              (omega (arith, r), ap pool.links r ∙ sym q)
          | inr n ↦
              let r : items' w ≡ pool.items w = set_at-other pool.items free w e (ground arith) in
              let (l, q) = v.live w (ap (λ u. is_open u.fd) (sym r) ∙ h) in rw r (omega arith, q)
        ];
        differ = v.differ;
      }
