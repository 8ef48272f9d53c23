-- ===== src/Prelude/Memory.antt =====
-- C objects as lists of bytes: checked reads and writes, and the block operations of <string.h>.
use Prim.Native.Nat.{ℕ, zero, suc, ◌+◌, ◌-◌, ◌≤◌, ◌<◌}
use mathlib.Core.Path.{◌≡◌, refl, ap, ◌∙◌}
use mathlib.Core.Logic.{◌⊎◌}
use mathlib.Core.List.{List, [], ◌∷◌, ◌++◌}
use mathlib.Core.Option.{Option, none, some}
use native.Mathlib.Omega.{arith}
use byedpi.Prelude.Tests.{leb, if◌then◌else◌, ◌>>=◌}
use byedpi.Prelude.Lists.{length, get_elem?, get_or, take, drop}

-- A byte is a number below 256, whatever the signedness of `char`.
abbrev pub Bytes : Type 0
Bytes = List ℕ

-- `data[i]`; `none` outside the object.
abbrev pub read : Bytes → ℕ → Option ℕ
read = get_elem?

abbrev pub byte_at : Bytes → ℕ → ℕ
byte_at xs i = get_or xs i 0

pub read-byte_at : (xs : Bytes) (i : ℕ) → i < length xs → read xs i ≡ some (byte_at xs i)
read-byte_at [] i h = absurd (omega arith)
read-byte_at (x ∷ xs) zero h = refl
read-byte_at (x ∷ xs) (suc i) h = read-byte_at xs i (omega arith)

-- `xs` over the bytes of `buf` from `i` on; what does not fit is dropped.
unfoldable pub overwrite : Bytes → ℕ → Bytes → Bytes
overwrite [] i xs = []
overwrite (b ∷ bs) zero [] = b ∷ bs
overwrite (b ∷ bs) zero (x ∷ xs) = x ∷ overwrite bs zero xs
overwrite (b ∷ bs) (suc i) xs = b ∷ overwrite bs i xs

-- `n` bytes of `buf` from `i` on.
abbrev pub slice : Bytes → ℕ → ℕ → Bytes
slice buf i n = take n (drop i buf)

-- A block write, `none` if it does not fit.
unfoldable pub store : Bytes → ℕ → Bytes → Option Bytes
store buf i xs = if leb (i + length xs) (length buf) then some (overwrite buf i xs) else none

-- A block read, `none` if it does not fit.
unfoldable pub load : Bytes → ℕ → ℕ → Option Bytes
load buf i n = if leb (i + n) (length buf) then some (slice buf i n) else none

-- `memmove(buf + dst, buf + src, n)`.
unfoldable pub memmove : Bytes → ℕ → ℕ → ℕ → Option Bytes
unfolding load store
memmove buf dst src n = load buf src n >>= λ xs. store buf dst xs

pub length-overwrite : (buf : Bytes) (i : ℕ) (xs : Bytes) → length (overwrite buf i xs) ≡ length buf
unfolding overwrite
length-overwrite [] i xs = refl
length-overwrite (b ∷ bs) zero [] = refl
length-overwrite (b ∷ bs) zero (x ∷ xs) = ap suc (length-overwrite bs zero xs)
length-overwrite (b ∷ bs) (suc i) xs = ap suc (length-overwrite bs i xs)

pub length-slice : (buf : Bytes) (i n : ℕ) → i + n ≤ length buf → length (slice buf i n) ≡ n
length-slice buf zero zero h = refl
length-slice [] zero (suc n) h = absurd (omega arith)
length-slice (b ∷ bs) zero (suc n) h = ap suc (length-slice bs zero n (omega arith))
length-slice [] (suc i) zero h = refl
length-slice [] (suc i) (suc n) h = absurd (omega arith)
length-slice (b ∷ bs) (suc i) n h = length-slice bs i n (omega arith)

pub byte_at_cong : (xs : Bytes) (i j : ℕ) → i ≡ j → byte_at xs i ≡ byte_at xs j
byte_at_cong xs i j e = ap (byte_at xs) e

pub byte_at-slice :
    (buf : Bytes) (i n k : ℕ) → k < n → byte_at (slice buf i n) k ≡ byte_at buf (i + k)
byte_at-slice [] zero (suc n) k h = refl
byte_at-slice (b ∷ bs) zero (suc n) zero h = refl
byte_at-slice (b ∷ bs) zero (suc n) (suc k) h =
    byte_at-slice bs zero n k (omega arith)
    ∙ byte_at_cong (b ∷ bs) (suc (0 + k)) (0 + suc k) (omega arith)
byte_at-slice xs i zero k h = absurd (omega arith)
byte_at-slice [] (suc i) (suc n) k h = refl
byte_at-slice (b ∷ bs) (suc i) (suc n) k h =
    byte_at-slice bs i (suc n) k h ∙ byte_at_cong (b ∷ bs) (suc (i + k)) (suc i + k) (omega arith)

-- The bytes after a block write.
pub byte_at-overwrite_in :
    (buf : Bytes) (i : ℕ) (xs : Bytes) (j : ℕ)
    → i ≤ j
    → j < i + length xs
    → j < length buf
    → byte_at (overwrite buf i xs) j ≡ byte_at xs (j - i)
unfolding overwrite
byte_at-overwrite_in [] i xs j l h k = absurd (omega arith)
byte_at-overwrite_in (b ∷ bs) zero [] j l h k = absurd (omega arith)
byte_at-overwrite_in (b ∷ bs) zero (x ∷ xs) zero l h k = refl
byte_at-overwrite_in (b ∷ bs) zero (x ∷ xs) (suc j) l h k =
    byte_at-overwrite_in bs zero xs j (omega arith) (omega arith) (omega arith)
    ∙ byte_at_cong (x ∷ xs) (suc (j - 0)) (suc j - 0) (omega arith)
byte_at-overwrite_in (b ∷ bs) (suc i) xs zero l h k = absurd (omega arith)
byte_at-overwrite_in (b ∷ bs) (suc i) xs (suc j) l h k =
    byte_at-overwrite_in bs i xs j (omega arith) (omega arith) (omega arith)
    ∙ byte_at_cong xs (j - i) (suc j - suc i) (omega arith)

pub byte_at-overwrite_out :
    (buf : Bytes) (i : ℕ) (xs : Bytes) (j : ℕ)
    → (j < i) ⊎ (i + length xs ≤ j)
    → byte_at (overwrite buf i xs) j ≡ byte_at buf j
unfolding overwrite
byte_at-overwrite_out [] i xs j h = refl
byte_at-overwrite_out (b ∷ bs) zero [] j h = refl
byte_at-overwrite_out (b ∷ bs) zero (x ∷ xs) zero h = absurd (omega arith)
byte_at-overwrite_out (b ∷ bs) zero (x ∷ xs) (suc j) h =
    byte_at-overwrite_out bs zero xs j (omega arith)
byte_at-overwrite_out (b ∷ bs) (suc i) xs zero h = refl
byte_at-overwrite_out (b ∷ bs) (suc i) xs (suc j) h = byte_at-overwrite_out bs i xs j (omega arith)

pub store-overwrite :
    (buf : Bytes) (i : ℕ) (xs : Bytes)
    → i + length xs ≤ length buf
    → store buf i xs ≡ some (overwrite buf i xs)
unfolding store
store-overwrite buf i xs h = ground arith

pub load-slice : (buf : Bytes) (i n : ℕ) → i + n ≤ length buf → load buf i n ≡ some (slice buf i n)
unfolding load
load-slice buf i n h = ground arith

pub memmove-overwrite :
    (buf : Bytes) (dst src n : ℕ)
    → src + n ≤ length buf
    → dst + n ≤ length buf
    → memmove buf dst src n ≡ some (overwrite buf dst (slice buf src n))
unfolding memmove
memmove-overwrite buf dst src n h k = rw (
  load-slice buf src n h,
  store-overwrite buf dst (slice buf src n) (omega (arith, length-slice buf src n h)),
)

-- A place of an object that is written as what lies before and behind it.
pub read-middle : (xs : Bytes) (c : ℕ) (ys : Bytes) → read (xs ++ (c ∷ ys)) (length xs) ≡ some c
read-middle [] c ys = refl
read-middle (x ∷ xs) c ys = read-middle xs c ys

pub overwrite-middle :
    (xs : Bytes) (c d : ℕ) (ys : Bytes)
    → overwrite (xs ++ (c ∷ ys)) (length xs) (d ∷ []) ≡ xs ++ (d ∷ ys)
unfolding overwrite
overwrite-middle [] c d [] = refl
overwrite-middle [] c d (y ∷ ys) = refl
overwrite-middle (x ∷ xs) c d ys = ap (λ l. x ∷ l) (overwrite-middle xs c d ys)

pub take-front : (xs ys : Bytes) → take (length xs) (xs ++ ys) ≡ xs
take-front [] ys = refl
take-front (x ∷ xs) ys = ap (λ l. x ∷ l) (take-front xs ys)

pub slice-middle : (xs ys zs : Bytes) → slice (xs ++ (ys ++ zs)) (length xs) (length ys) ≡ ys
slice-middle [] ys zs = take-front ys zs
slice-middle (x ∷ xs) ys zs = slice-middle xs ys zs
