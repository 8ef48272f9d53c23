-- ===== src/Extend/Cache/Bitlen.antt =====
-- What eq_bitlen of extend.c counts.
use byedpi.Prelude.{
  ℕ, zero, suc, ◌+◌, ◌-◌, ◌*◌, ◌/◌, ◌%◌, ◌≤◌, ◌<◌, ◌≡◌, ◌≢◌, ◌↔◌, ◌⊎◌, inl, inr, refl, sym, ◌∙◌,
  subst, true, false, arith, Bytes, length, read, byte_at, byte_at_cong, read-byte_at, Returns,
  Bool-cases, ◌==◌, if◌then◌else◌, ◌>>=◌, some, ℕ_discrete,
}
use byedpi.Mpool.{shift_char}
use byedpi.Mpool.Prefix.{SameBytes, SameBits, SamePrefix, AreBytes, shift_bits}
use byedpi.Extend.Cache.{eq_bytes, eq_bits, eq_bitlen}

-- `m` bytes from `by` on agree, and the next one does not, unless that is the end.
abbrev Agree : Bytes → Bytes → ℕ → ℕ → ℕ → Type 0
Agree a b by left r =
    (m : ℕ) × (r ≡ by + m)
    × (m ≤ left)
    × SameBytes m a b by
    × (m < left → byte_at a r ≢ byte_at b r)

eq_bytes-Agree :
    (left : ℕ) (a b : Bytes) (by : ℕ)
    → by + left ≤ length a
    → by + left ≤ length b
    → Returns (eq_bytes left a b by) (Agree a b by left)
unfolding eq_bytes
eq_bytes-Agree zero a b by h k =
    (by, refl, (0, omega arith, omega arith, tt, λ l. absurd (omega arith)))
eq_bytes-Agree (suc left) a b by h k =
    rw (read-byte_at a by (omega arith), read-byte_at b by (omega arith))
      (elim (Bool-cases (byte_at a by == byte_at b by)) [
        | inl y ↦
            let (r, e, (m, f, l, s, d)) =
              eq_bytes-Agree left a b (by + 1) (omega arith) (omega arith) in
            rw y (r, e, (suc m, omega arith, omega arith, (ground arith, s), λ q. d (omega arith)))
        | inr z ↦ rw z (by, refl, (0, omega arith, omega arith, tt, λ q e. ground arith))
      ])

-- The number of low bits that have to go before the rest agrees.
abbrev Shifts : ℕ → ℕ → ℕ → ℕ → ℕ → Type 0
Shifts x y bi left r =
    (bi ≤ r)
    × (r ≤ bi + left)
    × (r < bi + left → shift_char x r ≡ shift_char y r)
    × (bi < r → shift_char x (r - 1) ≢ shift_char y (r - 1))

eq_bits-Shifts : (left x y bi : ℕ) → Shifts x y bi left (eq_bits left x y bi)
unfolding eq_bits
eq_bits-Shifts zero x y bi =
    (omega arith, omega arith, λ q. absurd (omega arith), λ q. absurd (omega arith))
eq_bits-Shifts (suc left) x y bi = elim (Bool-cases (shift_char x bi == shift_char y bi)) [
  | inl e ↦ rw e (omega arith, omega arith, λ q. ground arith, λ q. absurd (omega arith))
  | inr d ↦
      let (l, u, s, t) = eq_bits-Shifts left x y (bi + 1) in
      rw d (omega arith, omega arith, (λ q. s (omega arith)), λ q. last d l t (ℕ_discrete _ _))
]
  where
    last :
        (shift_char x bi == shift_char y bi) ≡ false
        → bi + 1 ≤ eq_bits left x y (bi + 1)
        → (bi + 1 < eq_bits left x y (bi + 1)
            → shift_char x (eq_bits left x y (bi + 1) - 1)
              ≢ shift_char y (eq_bits left x y (bi + 1) - 1))
        → Dec (eq_bits left x y (bi + 1) ≡ bi + 1)
        → shift_char x (eq_bits left x y (bi + 1) - 1)
          ≢ shift_char y (eq_bits left x y (bi + 1) - 1)
    last d l t (yes q) =
        let here : eq_bits left x y (bi + 1) - 1 ≡ bi = omega arith in rw here (λ e. ground arith)
    last d l t (no q) = t (omega arith)

SameBytes-last :
    (m : ℕ) (a b : Bytes) (at : ℕ)
    → SameBytes (suc m) a b at
    → byte_at a (at + m) ≡ byte_at b (at + m)
SameBytes-last zero a b at s =
    byte_at_cong a (at + 0) at (omega arith) ∙ s.0 ∙ byte_at_cong b at (at + 0) (omega arith)
SameBytes-last (suc m) a b at s =
    byte_at_cong a (at + suc m) (at + 1 + m) (omega arith)
    ∙ SameBytes-last m a b (at + 1) s.1
    ∙ byte_at_cong b (at + 1 + m) (at + suc m) (omega arith)

shift_char_0 : (c : ℕ) → c < 256 → shift_char c 0 ≡ c
unfolding shift_char
shift_char_0 c h = ground arith

-- The leading bits of two bytes that differ.
eq_bits-SameBits :
    (x y r : ℕ)
    → x < 256
    → y < 256
    → x ≢ y
    → Shifts x y 0 8 r
    → (0 < r) × SameBits (8 - r) x y 0 × (1 < r → SameBits (9 - r) x y 0 → ⊥)
eq_bits-SameBits x y r h k d (_, u, s, t) =
    (some_bit (ℕ_discrete r 0), top (ℕ_discrete r 8), λ l w. more l w)
  where
    some_bit : Dec (r ≡ 0) → 0 < r
    some_bit (yes e) = absurd (
        d (
          sym (shift_char_0 x h)
          ∙ subst (λ t. shift_char x t ≡ shift_char y t) e (s (omega arith))
          ∙ shift_char_0 y k))
    some_bit (no e) = omega arith

    top : Dec (r ≡ 8) → SameBits (8 - r) x y 0
    top (yes e) = rw e tt
    top (no e) =
        let back : 8 - (8 - r) ≡ r = omega arith in
        (shift_bits (8 - r) x y (omega arith) (omega (arith, some_bit (ℕ_discrete r 0))) h k).0
          (rw back (s (omega arith)))

    more : 1 < r → SameBits (9 - r) x y 0 → ⊥
    more l w =
        let back : 8 - (9 - r) ≡ r - 1 = omega arith in
        t (omega arith) (rw back at ((shift_bits (9 - r) x y (omega arith) (omega arith) h k).1 w))

-- The place of a bit, by its byte.
prefix_at :
    (m j : ℕ) (a b : Bytes)
    → j < 8
    → SamePrefix (8 * m + j) a b ↔ (SameBytes m a b 0 × SameBits j (byte_at a m) (byte_at b m) 0)
prefix_at m j a b h =
    let e : (8 * m + j) / 8 ≡ m = omega arith in
    let f : (8 * m + j) % 8 ≡ j = omega arith in rw (e, f) ((λ s. s), (λ s. s))

-- The prefix up to the first bit that differs.
up_to :
    (m r : ℕ) (a b : Bytes)
    → AreBytes a
    → AreBytes b
    → SameBytes m a b 0
    → byte_at a m ≢ byte_at b m
    → Shifts (byte_at a m) (byte_at b m) 0 8 r
    → (m * 8 + 8 - r < 8 * suc m)
      × SamePrefix (m * 8 + 8 - r) a b
      × (SamePrefix (m * 8 + 8 - r + 1) a b → ⊥)
up_to m r a b p q s d t =
    let (z, front, more) = eq_bits-SameBits (byte_at a m) (byte_at b m) r (p m) (q m) d t in
    let k : m * 8 + 8 - r ≡ 8 * m + (8 - r) = omega (arith, t.1) in
    (
      omega (arith, z, t.1),
      rw k ((prefix_at m (8 - r) a b (omega (arith, z))).1 (s, front)),
      λ w. next z more w (ℕ_discrete r 1),
    )
  where
    next :
        0 < r
        → (1 < r → SameBits (9 - r) (byte_at a m) (byte_at b m) 0 → ⊥)
        → SamePrefix (m * 8 + 8 - r + 1) a b
        → Dec (r ≡ 1)
        → ⊥
    next z more w (yes e) =
        let whole : (m * 8 + 8 - r + 1) / 8 ≡ suc m = omega arith in
        d (
          byte_at_cong a m (0 + m) (omega arith)
          ∙ SameBytes-last m a b 0 (rw whole at w.0)
          ∙ byte_at_cong b (0 + m) m (omega arith))
    next z more w (no e) =
        let k : m * 8 + 8 - r + 1 ≡ 8 * m + (9 - r) = omega (arith, t.1) in
        more (omega arith) ((prefix_at m (9 - r) a b (omega arith)).0 (rw k at w)).1

-- On two objects of `n` bytes at least eq_bitlen reads only the first `n`. If they differ there it
-- gives the number of leading bits that agree: so many do, and one more does not. If all of them agree it gives
-- eight bits more than there are.
pub eq_bitlen-SamePrefix :
    (a b : Bytes) (n : ℕ)
    → n ≤ length a
    → n ≤ length b
    → AreBytes a
    → AreBytes b
    → Returns (eq_bitlen a b n) (λ k.
      (SameBytes n a b 0 × (k ≡ 8 * n + 8))
      ⊎ ((k < 8 * n) × SamePrefix k a b × (SamePrefix (k + 1) a b → ⊥)))
unfolding eq_bitlen
eq_bitlen-SamePrefix a b n h k p q =
    let (r, e, (m, f, l, s, d)) = eq_bytes-Agree n a b 0 (omega arith) (omega arith) in
    let f' : r ≡ m = omega (arith, f) in
    let d' : m < n → byte_at a m ≢ byte_at b m =
      subst (λ t. m < n → byte_at a t ≢ byte_at b t) f' d in
    rw (e, f') (ends m l s d' (ℕ_discrete m n))
  where
    upto : {m k : ℕ} {P Q : Type 0} → (k < 8 * suc m) × P × Q → m < n → (k < 8 * n) × P × Q
    upto (c, s, t) l = (omega arith, s, t)

    ends :
        (m : ℕ)
        → m ≤ n
        → SameBytes m a b 0
        → (m < n → byte_at a m ≢ byte_at b m)
        → Dec (m ≡ n)
        → Returns
            (if m == n
              then some (m * 8 + 8)
              else (read a m >>= λ x. read b m >>= λ y. some (m * 8 + 8 - eq_bits 8 x y 0)))
            (λ k.
              (SameBytes n a b 0 × (k ≡ 8 * n + 8))
              ⊎ ((k < 8 * n) × SamePrefix k a b × (SamePrefix (k + 1) a b → ⊥)))
    ends m l s d (yes e) =
        let t : (m == n) ≡ true = ground arith in
        rw t (_, refl, inl (subst (λ t. SameBytes t a b 0) e s, omega arith))
    ends m l s d (no e) =
        let t : (m == n) ≡ false = ground arith in
        rw (t, read-byte_at a m (omega arith), read-byte_at b m (omega arith))
          (
            _,
            refl,
            inr (
                upto
                  (up_to m (eq_bits 8 (byte_at a m) (byte_at b m) 0) a b p q s (d (omega arith))
                    (eq_bits-Shifts 8 (byte_at a m) (byte_at b m) 0))
                  (omega arith)),
          )
