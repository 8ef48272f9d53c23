-- ===== src/Packets/Http/Scan.antt =====
-- The scanning loops of the HTTP parser on arbitrary bytes: each ends, without an access outside.
use byedpi.Prelude.{
  ℕ, zero, suc, ◌+◌, ◌-◌, ◌*◌, ◌≤◌, ◌<◌, ◌≡◌, ◌≢◌, ◌⊎◌, ◌||◌, refl, inl, inr, true, false, none,
  some, Option, List, [], ◌∷◌, arith, Bytes, length, byte_at, read-byte_at, Returns, Bool-cases,
  Option-cases, ltb, ◌==◌,
}
use byedpi.Prelude.Ctype.{
  is_space, is_digit, to_lower, memchr, starts_at, starts_fold_at, scan_digits, skip_space,
  strtol10,
}
use byedpi.Packets.Http.{
  find_fold, methods, any_method, is_http, skip_blanks, trim_back, back_digits,
}

-- The first byte `c` from `at` on, or none.
abbrev pub Hit : Bytes → ℕ → ℕ → ℕ → Option ℕ → Type 0
Hit buf at c size none = Unit
Hit buf at c size (some p) = (at ≤ p) × (p < size) × (byte_at buf p ≡ c)

pub memchr-Returns :
    (count : ℕ) (buf : Bytes) (at c size : ℕ)
    → at + count ≤ size
    → size ≤ length buf
    → Returns (memchr buf at c count) (Hit buf at c size)
unfolding memchr
memchr-Returns zero buf at c size h k = (none, refl, tt)
memchr-Returns (suc count) buf at c size h k =
    rw (read-byte_at buf at (omega arith)) (elim (Bool-cases (byte_at buf at == c)) [
      | inl y ↦ rw y (some at, refl, (omega arith, omega arith, ground arith))
      | inr n ↦
          let (r, e, f) = memchr-Returns count buf (at + 1) c size (omega arith) k in
          rw n (r, e, Hit-later buf at c size r f)
    ])
  where
    Hit-later :
        (buf : Bytes) (at c size : ℕ) (r : Option ℕ)
        → Hit buf (at + 1) c size r
        → Hit buf at c size r
    Hit-later buf at c size none f = tt
    Hit-later buf at c size (some p) f = omega arith

pub starts_at-Returns :
    (text buf : Bytes) (at : ℕ)
    → at + length text ≤ length buf
    → Returns (starts_at buf at text) (λ _. Unit {0})
unfolding starts_at
starts_at-Returns [] buf at h = (true, refl, tt)
starts_at-Returns (t ∷ ts) buf at h =
    rw (read-byte_at buf at (omega arith)) (elim (Bool-cases (byte_at buf at == t)) [
      | inl y ↦ rw y (starts_at-Returns ts buf (at + 1) (omega arith))
      | inr n ↦ rw n (false, refl, tt)
    ])

-- The bytes from `at` on are those of the text, but for the case of letters.
abbrev pub Folds : Bytes → ℕ → Bytes → Type 0
Folds buf at [] = Unit
Folds buf at (t ∷ ts) = (to_lower (byte_at buf at) ≡ to_lower t) × Folds buf (at + 1) ts

pub starts_fold_at-Returns :
    (text buf : Bytes) (at : ℕ)
    → at + length text ≤ length buf
    → Returns (starts_fold_at buf at text) (λ b. b ≡ true → Folds buf at text)
unfolding starts_fold_at
starts_fold_at-Returns [] buf at h = (true, refl, λ _. tt)
starts_fold_at-Returns (t ∷ ts) buf at h =
    rw (read-byte_at buf at (omega arith))
      (elim (Bool-cases (to_lower (byte_at buf at) == to_lower t)) [
        | inr n ↦ rw n (false, refl, λ e. cc)
        | inl y ↦
            let (r, e, f) = starts_fold_at-Returns ts buf (at + 1) (omega arith) in
            rw y (r, e, λ q. (ground arith, f q))
      ])

-- Where the text was found.
abbrev pub FoldHit : Bytes → ℕ → Bytes → Option ℕ → Type 0
FoldHit buf size text none = Unit
FoldHit buf size text (some p) = (p + length text ≤ size) × Folds buf p text

pub find_fold-Returns :
    (fuel : ℕ) (buf : Bytes) (size c : ℕ) (text : Bytes) (at : ℕ)
    → size ≤ length buf
    → at ≤ size
    → size < at + fuel
    → 0 < length text
    → Returns (find_fold fuel buf size c text at) (FoldHit buf size text)
unfolding find_fold
find_fold-Returns zero buf size c text at h l k w = absurd (omega arith)
find_fold-Returns (suc fuel) buf size c text at h l k w =
    let (hit, e, f) = memchr-Returns (size - at) buf at c size (omega arith) h in
    rw e (elim (Option-cases hit) [
      | inl z ↦ rw z (none, refl, tt)
      | inr (p, z) ↦
          let (low, high, _) = rw z at f in
          rw z (elim (Bool-cases (ltb size (p + length text))) [
            | inl t ↦ rw t (none, refl, tt)
            | inr t ↦
                let fits : p + length text ≤ size = ground arith in
                let (same, e', g) = starts_fold_at-Returns text buf p (omega arith) in
                rw (t, e')
                  (elim (Bool-cases same) [
                    | inl y ↦ rw y (some p, refl, (fits, g y))
                    | inr n ↦ rw n (
                        find_fold-Returns fuel buf size c text (p + 1) h (omega arith) (omega arith)
                          w)
                  ])
          ])
    ])

abbrev pub AllShort : ℕ → List Bytes → Type 0
AllShort n [] = Unit
AllShort n (m ∷ ms) = (length m ≤ n) × AllShort n ms

pub any_method-Returns :
    (ms : List Bytes) (buf : Bytes)
    → AllShort (length buf) ms
    → Returns (any_method ms buf) (λ _. Unit {0})
unfolding any_method
any_method-Returns [] buf h = (false, refl, tt)
any_method-Returns (m ∷ ms) buf h =
    let (hit, e, _) = starts_at-Returns m buf 0 (omega arith) in
    rw e (elim (Bool-cases hit) [
      | inl y ↦ rw y (true, refl, tt)
      | inr n ↦ rw n (any_method-Returns ms buf h.1)
    ])

pub is_http-Returns :
    (buf : Bytes) (size : ℕ)
    → size ≤ length buf
    → Returns (is_http buf size) (λ b. b ≡ true → 16 ≤ size)
unfolding is_http
is_http-Returns buf size h = elim (Bool-cases (ltb size 16)) [
  | inl t ↦ rw t (false, refl, λ e. cc)
  | inr t ↦
      let room : 16 ≤ size = ground arith in
      rw (t, read-byte_at buf 0 (omega arith))
        (elim (Bool-cases (ltb b'T' (byte_at buf 0) || ltb (byte_at buf 0) b'C')) [
          | inl o ↦ rw o (false, refl, λ e. cc)
          | inr o ↦
              let (r, e, _) = any_method-Returns methods buf (omega arith) in rw o (r, e, λ _. room)
        ])
]

pub skip_blanks-Returns :
    (count : ℕ) (buf : Bytes) (at size : ℕ)
    → at + count ≤ size
    → size ≤ length buf
    → Returns (skip_blanks buf at count) (λ r. (at ≤ r) × (r ≤ at + count))
unfolding skip_blanks
skip_blanks-Returns zero buf at size h k = (at, refl, (omega arith, omega arith))
skip_blanks-Returns (suc count) buf at size h k =
    rw (read-byte_at buf at (omega arith)) (elim (Bool-cases (byte_at buf at == b' ')) [
      | inr n ↦ rw n (at, refl, (omega arith, omega arith))
      | inl y ↦
          let (r, e, f) = skip_blanks-Returns count buf (at + 1) size (omega arith) k in
          rw y (r, e, (omega arith, omega arith))
    ])

-- A byte at `stop` that is no blank keeps the walk behind it.
pub trim_back-Returns :
    (e : ℕ) (buf : Bytes) (stop : ℕ)
    → stop < e
    → e ≤ length buf
    → is_space (byte_at buf stop) ≡ false
    → Returns (trim_back buf e) (λ r.
      (stop < r)
      × (r ≤ e)
      × (is_space (byte_at buf (r - 1)) ≡ false)
      × ((r ≡ e) ⊎ (is_space (byte_at buf r) ≡ true)))
unfolding trim_back
trim_back-Returns zero buf stop h k n = absurd (omega arith)
trim_back-Returns (suc e) buf stop h k n =
    rw (read-byte_at buf e k) (elim (Bool-cases (is_space (byte_at buf e))) [
      | inl y ↦
          let apart : stop ≢ e = λ q. cc in
          let (r, q, f) = trim_back-Returns e buf stop (omega arith) (omega arith) n in
          rw y (r, q, (f.0, omega arith, f.2, ground (arith, f.3)))
      | inr o ↦
          let last : suc e - 1 ≡ e = omega arith in
          rw o (suc e, refl, (h, omega arith, rw last o, inl refl))
    ])

pub back_digits-Returns :
    (e : ℕ) (buf : Bytes) (stop : ℕ)
    → stop < e
    → e ≤ length buf
    → is_digit (byte_at buf stop) ≡ false
    → Returns
        (back_digits buf e)
        (λ r. (stop ≤ r) × (r < e) × ((r + 1 ≡ e) ⊎ (is_digit (byte_at buf (r + 1)) ≡ true)))
unfolding back_digits
back_digits-Returns zero buf stop h k n = absurd (omega arith)
back_digits-Returns (suc e) buf stop h k n =
    rw (read-byte_at buf e k) (elim (Bool-cases (is_digit (byte_at buf e))) [
      | inl y ↦
          let apart : stop ≢ e = λ q. cc in
          let (r, q, f) = back_digits-Returns e buf stop (omega arith) (omega arith) n in
          rw y (r, q, (f.0, omega arith, ground (arith, f.2)))
      | inr o ↦ rw o (e, refl, (omega arith, omega arith, inl (omega arith)))
    ])

pub scan_digits-Returns :
    (fuel : ℕ) (buf : Bytes) (at acc stop : ℕ)
    → at ≤ stop
    → stop < length buf
    → stop < at + fuel
    → is_digit (byte_at buf stop) ≡ false
    → Returns (scan_digits fuel buf at acc) (λ (_, end). end < length buf)
unfolding scan_digits
scan_digits-Returns zero buf at acc stop h k l n = absurd (omega arith)
scan_digits-Returns (suc fuel) buf at acc stop h k l n =
    rw (read-byte_at buf at (omega arith)) (elim (Bool-cases (is_digit (byte_at buf at))) [
      | inr o ↦ rw o ((acc, at), refl, omega arith)
      | inl y ↦
          let apart : at ≢ stop = λ q. cc in
          rw y (
            scan_digits-Returns fuel buf (at + 1) (acc * 10 + (byte_at buf at - b'0')) stop
              (omega arith) k (omega arith) n)
    ])

pub strtol10-Returns :
    (buf : Bytes) (at stop : ℕ)
    → at < stop
    → stop < length buf
    → is_space (byte_at buf at) ≡ false
    → is_digit (byte_at buf stop) ≡ false
    → Returns (strtol10 buf at) (λ _. Unit {0})
unfolding strtol10 skip_space
strtol10-Returns buf at stop h k n m = rw (read-byte_at buf at (omega arith)) (
    rw n (
      rw (read-byte_at buf at (omega arith))
        (elim (Bool-cases (byte_at buf at == b'-' || byte_at buf at == b'+')) [
          | inl s ↦
              let ((v, e), q, _) =
                scan_digits-Returns (suc (length buf)) buf (at + 1) 0 stop (omega arith) k
                  (omega arith) m in
              rw (s, q) (_, refl, tt)
          | inr s ↦
              let ((v, e), q, _) =
                scan_digits-Returns (suc (length buf)) buf at 0 stop (omega arith) k (omega arith)
                  m in
              rw (s, q) (_, refl, tt)
        ])))
