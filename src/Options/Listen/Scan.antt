-- ===== src/Options/Listen/Scan.antt =====
-- What the scans of get_addr of main.c find in a text.
use byedpi.Prelude.{
  ℕ, zero, suc, ◌+◌, ◌≤◌, ◌<◌, ◌≡◌, ◌≢◌, sym, Bool-cases, ◌⊎◌, inl, inr, refl, ap, ◌∙◌, true, false,
  Option, none, some, Bytes, arith, byte_at, read-byte_at, length, ltb, ◌==◌, if-cases, Returns,
}
use byedpi.Options.Listen.{strchr, str_end}

-- `i` is the first place from `at` on with the byte, and there is no 0 before it.
abbrev pub FirstAt : Bytes → ℕ → ℕ → ℕ → Type 0
FirstAt str at c i =
    (at ≤ i)
    × (byte_at str i ≡ c)
    × ((j : ℕ) → at ≤ j → j < i → (byte_at str j ≢ c) × (byte_at str j ≢ 0))

-- There is none in front of the first 0.
abbrev pub NoneAt : Bytes → ℕ → ℕ → Type 0
NoneAt str at c =
    (e : ℕ) × (at ≤ e) × (byte_at str e ≡ 0) × ((j : ℕ) → at ≤ j → j < e → byte_at str j ≢ c)

below_or : (a j : ℕ) → a ≤ j → (j ≡ a) ⊎ (a + 1 ≤ j)
below_or a j h = elim (Bool-cases (ltb a j)) [
  | inl y ↦ inr (ground arith)
  | inr n ↦ inl (ground arith)
]

pub same : (x c : ℕ) → (x == c) ≡ true → x ≡ c
same x c y = ground arith

pub differ : (x c : ℕ) → (x == c) ≡ false → x ≢ c
differ x c n e = ground arith

module _ (str : Bytes) (stop : ℕ) (l : stop < length str) (z : byte_at str stop ≡ 0) where
  abbrev pub Within : ℕ → ℕ → Option ℕ → Type 0
  Within at c none = NoneAt str at c
  Within at c (some i) = (i < stop) × FirstAt str at c i

  first_here : (at c : ℕ) → byte_at str at ≡ c → FirstAt str at c at
  first_here at c e = (omega arith, e, λ j a b. absurd (omega arith))

  first_later :
      (at c i : ℕ)
      → byte_at str at ≢ c
      → byte_at str at ≢ 0
      → FirstAt str (at + 1) c i
      → FirstAt str at c i
  first_later at c i d n (a, e, f) = (omega arith, e, earlier)
    where
      earlier : (j : ℕ) → at ≤ j → j < i → (byte_at str j ≢ c) × (byte_at str j ≢ 0)
      earlier j b k = elim (below_or at j b) [
        | inl q ↦ (λ x. d (ap (byte_at str) (sym q) ∙ x), λ x. n (ap (byte_at str) (sym q) ∙ x))
        | inr q ↦ f j q k
      ]

  pub strchr-Within :
      (fuel at c : ℕ)
      → at ≤ stop
      → stop < at + fuel
      → c ≢ 0
      → Returns (strchr fuel str at c) (Within at c)
  unfolding strchr
  strchr-Within zero at c h f d = absurd (omega arith)
  strchr-Within (suc fuel) at c h f d = rw (read-byte_at str at (omega arith)) (
      if-cases (λ o. Returns o (Within at c)) (byte_at str at == c) _ _
        (λ y.
          let here = same (byte_at str at) c y in
          let before : at ≢ stop = λ e. d (sym here ∙ (ap (byte_at str) e ∙ z)) in
          (some at, refl, (omega arith, first_here at c here)))
        (λ n.
          if-cases (λ o. Returns o (Within at c)) (byte_at str at == 0) _ _
            (λ y. (
              none,
              refl,
              (at, omega arith, same (byte_at str at) 0 y, λ j a b. absurd (omega arith)),
            ))
            (λ m.
              let not_end = differ (byte_at str at) 0 m in
              let before : at ≢ stop = λ e. not_end (ap (byte_at str) e ∙ z) in
              let (o, e, w) = strchr-Within fuel (at + 1) c (omega arith) (omega arith) d in
              (o, e, wider (differ (byte_at str at) c n) not_end o w))))
    where
      wider :
          byte_at str at ≢ c
          → byte_at str at ≢ 0
          → (o : Option ℕ) → Within (at + 1) c o
          → Within at c o
      wider n m none (e, a, b, f) = (e, omega arith, b, earlier)
        where
          earlier : (j : ℕ) → at ≤ j → j < e → byte_at str j ≢ c
          earlier j k q = elim (below_or at j k) [
            | inl r ↦ λ x. n (ap (byte_at str) (sym r) ∙ x)
            | inr r ↦ f j r q
          ]
      wider n m (some i) (b, w) = (b, first_later at c i n m w)

  pub str_end-Within :
      (fuel at : ℕ)
      → at ≤ stop
      → stop < at + fuel
      → Returns (str_end fuel str at) (λ i. (i ≤ stop) × FirstAt str at 0 i)
  unfolding str_end
  str_end-Within zero at h f = absurd (omega arith)
  str_end-Within (suc fuel) at h f = rw (read-byte_at str at (omega arith)) (
      if-cases (λ o. Returns o (λ i. (i ≤ stop) × FirstAt str at 0 i)) (byte_at str at == 0) _ _
        (λ y. (at, refl, (h, first_here at 0 (same (byte_at str at) 0 y))))
        (λ m.
          let not_end = differ (byte_at str at) 0 m in
          let before : at ≢ stop = λ e. not_end (ap (byte_at str) e ∙ z) in
          let (i, e, (a, b)) = str_end-Within fuel (at + 1) (omega arith) (omega arith) in
          (i, e, (a, first_later at 0 i not_end not_end b))))
