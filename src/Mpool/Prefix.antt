-- ===== src/Mpool/Prefix.antt =====
-- What it means for bit_cmp to call two addresses the same.
use byedpi.Prelude.{
  ℕ, zero, suc, ◌+◌, ◌-◌, ◌*◌, ◌/◌, ◌%◌, ◌^◌, ◌≤◌, ◌<◌, ◌≡◌, ◌↔◌, ◌&&◌, refl, inl, inr, false,
  arith, Bytes, length, byte_at, read-byte_at, Returns, Bool-cases, ltb, ◌==◌, ◌!=◌, if◌then◌else◌,
  min,
}
use byedpi.Mpool.{
  Sign, less, same, more, order, Elem, memcmp, shift_char, cmp_rest, bit_cmp, is_same,
}

-- The first `n` bytes from `at` on agree.
abbrev pub SameBytes : ℕ → Bytes → Bytes → ℕ → Type 0
SameBytes zero p q at = Unit
SameBytes (suc n) p q at = (byte_at p at ≡ byte_at q at) × SameBytes n p q (at + 1)

-- Bit `k` of a byte, the highest first.
abbrev pub bit : ℕ → ℕ → ℕ
bit c k = c / 2 ^ (7 - k) % 2

-- The first `n` bits of two bytes agree, from bit `k` on.
abbrev pub SameBits : ℕ → ℕ → ℕ → ℕ → Type 0
SameBits zero a b k = Unit
SameBits (suc n) a b k = (bit a k ≡ bit b k) × SameBits n a b (suc k)

pub memcmp-Returns :
    (n : ℕ) (p q : Bytes) (at : ℕ)
    → at + n ≤ length p
    → at + n ≤ length q
    → Returns (memcmp p q at n) (λ s. (s ≡ same) ↔ SameBytes n p q at)
unfolding memcmp order
memcmp-Returns zero p q at h k = (same, refl, ground arith)
memcmp-Returns (suc n) p q at h k =
    rw (read-byte_at p at (omega arith), read-byte_at q at (omega arith))
      (elim (Bool-cases (byte_at p at == byte_at q at)) [
        | inr z ↦ rw z (_, refl, ground arith)
        | inl y ↦
            let (s, e, f) = memcmp-Returns n p q (at + 1) (omega arith) (omega arith) in
            rw y (s, e, ((λ w. (ground arith, f.0 w)), (λ w. f.1 w.1)))
      ])

-- The top `n` bits, for each `n` that can be left over.
pub shift_bits :
    (n a b : ℕ)
    → 0 < n
    → n < 8
    → a < 256
    → b < 256
    → (shift_char a (8 - n) ≡ shift_char b (8 - n)) ↔ SameBits n a b 0
unfolding shift_char
shift_bits zero a b z h k l = absurd (omega arith)
shift_bits (suc zero) a b z h k l = ground arith
shift_bits (suc (suc zero)) a b z h k l = ground arith
shift_bits (suc (suc (suc zero))) a b z h k l = ground arith
shift_bits (suc (suc (suc (suc zero)))) a b z h k l = ground arith
shift_bits (suc (suc (suc (suc (suc zero))))) a b z h k l = ground arith
shift_bits (suc (suc (suc (suc (suc (suc zero)))))) a b z h k l = ground arith
shift_bits (suc (suc (suc (suc (suc (suc (suc zero))))))) a b z h k l = ground arith
shift_bits (suc (suc (suc (suc (suc (suc (suc (suc n)))))))) a b z h k l = absurd (omega arith)

order-same : (a b : ℕ) → (order a b ≡ same) ↔ (a ≡ b)
unfolding order
order-same a b = ground arith

-- The first `n` bits agree.
abbrev pub SamePrefix : ℕ → Bytes → Bytes → Type 0
SamePrefix n p q =
    SameBytes (n / 8) p q 0 × SameBits (n % 8) (byte_at p (n / 8)) (byte_at q (n / 8)) 0

abbrev pub AreBytes : Bytes → Type 0
AreBytes xs = (i : ℕ) → byte_at xs i < 256

cmp_rest-Returns :
    (p q : Elem) (at n : ℕ)
    → 0 < n
    → n < 8
    → at < length p.body
    → at < length q.body
    → AreBytes p.body
    → AreBytes q.body
    → Returns
        (cmp_rest p q at n)
        (λ s. (s ≡ same) ↔ SameBits n (byte_at p.body at) (byte_at q.body at) 0)
unfolding cmp_rest
cmp_rest-Returns p q at n z l h k bp bq =
    let a : ℕ = byte_at p.body at in
    let b : ℕ = byte_at q.body at in
    let o = order-same (shift_char a (8 - n)) (shift_char b (8 - n)) in
    let s = shift_bits n a b z l (bp at) (bq at) in
    rw (read-byte_at p.body at h, read-byte_at q.body at k)
      (_, refl, ((λ e. s.0 (o.0 e)), (λ e. o.1 (s.1 e))))

-- `bit_cmp` reads nothing outside the data of two elements that hold their bits, and calls them
-- the same exactly when they agree in as many leading bits as the shorter one has.
pub bit_cmp-SamePrefix :
    (p q : Elem)
    → p.len ≤ 8 * length p.body
    → q.len ≤ 8 * length q.body
    → AreBytes p.body
    → AreBytes q.body
    → Returns (bit_cmp p q) (λ s. (s ≡ same) ↔ SamePrefix (min p.len q.len) p.body q.body)
unfolding bit_cmp
bit_cmp-SamePrefix p q h k bp bq =
    let is_min : (if ltb q.len p.len then q.len else p.len) ≡ min p.len q.len = ground arith in
    let m : ℕ = min p.len q.len in
    let (s, e, f) = memcmp-Returns (m / 8) p.body q.body 0 (omega arith) (omega arith) in
    rw (is_min, e)
      (elim (Bool-cases (is_same s && m % 8 != 0)) [
        | inr z ↦ rw z (s, refl, whole s f z)
        | inl y ↦
            let (r, e', g) =
              cmp_rest-Returns p q (m / 8) (m % 8) (ground arith) (omega arith) (ground arith)
                (ground arith) bp bq in
            rw y (r, e', ((λ w. (f.0 (ground arith), g.0 w)), (λ w. g.1 w.1)))
      ])
  where
    whole :
        (s : Sign)
        → ((s ≡ same) ↔ SameBytes (min p.len q.len / 8) p.body q.body 0)
        → (is_same s && min p.len q.len % 8 != 0) ≡ false
        → (s ≡ same) ↔ SamePrefix (min p.len q.len) p.body q.body
    whole less f z = ((λ w. cc), (λ w. f.1 w.0))
    whole more f z = ((λ w. cc), (λ w. f.1 w.0))
    whole same f z =
        let none_left : min p.len q.len % 8 ≡ 0 = ground arith in
        ((λ w. (f.0 w, rw none_left tt)), (λ w. refl))
