-- ===== src/Packets/Record/Split.antt =====
-- What part_tls does to the bytes of a record.
use byedpi.Prelude.{
  ℕ, ◌+◌, ◌-◌, ◌/◌, ◌%◌, ◌^◌, ◌≤◌, ◌<◌, ◌≡◌, ◌≢◌, ◌⊎◌, ◌∙◌, refl, inl, inr, some, [], ◌∷◌, arith,
  Bytes, length, byte_at, slice, overwrite, Returns, length-overwrite, length-slice, byte_at-slice,
  byte_at_cong, byte_at-overwrite_in, byte_at-overwrite_out, store-overwrite, load-slice,
  memmove-overwrite,
}
use byedpi.Prelude.Int.{pos}
use byedpi.Packets.Tls.{shtona}
use byedpi.Packets.Tls.Safe.{word_at, antohs-word_at}
use byedpi.Packets.Record.{cut_record, part_tls}

abbrev pub be : ℕ → Bytes
be x = (x / 256 % 256) ∷ (x % 256) ∷ []

-- The four block writes of `cut_record`.
abbrev moved : Bytes → ℕ → ℕ → Bytes
moved buf n p = overwrite buf (5 + p + 5) (slice buf (5 + p) (n - (5 + p)))

abbrev copied : Bytes → ℕ → ℕ → Bytes
copied buf n p = overwrite (moved buf n p) (5 + p) (slice (moved buf n p) 0 3)

abbrev first : Bytes → ℕ → ℕ → Bytes
first buf n p = overwrite (copied buf n p) 3 (be p)

abbrev second : Bytes → ℕ → ℕ → ℕ → Bytes
second buf n p r = overwrite (first buf n p) (5 + p + 3) (be (r - p))

word_at-overwrite-be :
    (buf : Bytes) (i x : ℕ)
    → i + 1 < length buf
    → x < 65536
    → word_at (overwrite buf i (be x)) i ≡ x
word_at-overwrite-be buf i x h k =
    let hi =
      byte_at-overwrite_in buf i (be x) i (omega arith) (omega arith) (omega arith)
      ∙ byte_at_cong (be x) (i - i) 0 (omega arith) in
    let lo =
      byte_at-overwrite_in buf i (be x) (i + 1) (omega arith) (omega arith) (omega arith)
      ∙ byte_at_cong (be x) (i + 1 - i) 1 (omega arith) in
    omega (arith, hi, lo)

module _ (buf : Bytes) (n p : ℕ) (room : n + 5 ≤ length buf) (inside : p + 5 ≤ n) where
  length-tail : length (slice buf (5 + p) (n - (5 + p))) ≡ n - (5 + p)
  length-tail = length-slice buf (5 + p) (n - (5 + p)) (omega arith)

  length-moved : length (moved buf n p) ≡ length buf
  length-moved = length-overwrite buf (5 + p + 5) (slice buf (5 + p) (n - (5 + p)))

  length-head : length (slice (moved buf n p) 0 3) ≡ 3
  length-head = length-slice (moved buf n p) 0 3 (omega (arith, length-moved))

  length-copied : length (copied buf n p) ≡ length buf
  length-copied =
      length-overwrite (moved buf n p) (5 + p) (slice (moved buf n p) 0 3) ∙ length-moved

  length-first : length (first buf n p) ≡ length buf
  length-first = length-overwrite (copied buf n p) 3 (be p) ∙ length-copied

  pub cut_record-second : (r : ℕ) → cut_record buf n p r ≡ some (5, second buf n p r)
  unfolding cut_record shtona
  cut_record-second r = rw (
    memmove-overwrite buf (5 + p + 5) (5 + p) (n - (5 + p)) (omega arith) (omega arith),
    load-slice (moved buf n p) 0 3 (omega (arith, length-moved)),
    store-overwrite (moved buf n p) (5 + p) (slice (moved buf n p) 0 3)
        (omega (arith, length-moved, length-head)),
    store-overwrite (copied buf n p) 3 (be p) (omega (arith, length-copied)),
    store-overwrite (first buf n p) (5 + p + 3) (be (r - p)) (omega (arith, length-first)),
  )

  -- A byte that the last two writes, of the length words, leave alone.
  byte_at-second_out :
      (r j : ℕ)
      → (j < 3) ⊎ ((5 ≤ j) × (j < 5 + p + 3)) ⊎ (5 + p + 5 ≤ j)
      → byte_at (second buf n p r) j ≡ byte_at (copied buf n p) j
  byte_at-second_out r j h =
      byte_at-overwrite_out (first buf n p) (5 + p + 3) (be (r - p)) j (omega arith)
      ∙ byte_at-overwrite_out (copied buf n p) 3 (be p) j (omega arith)

  -- A byte that only the copy of the header may touch.
  byte_at-copied_out :
      (j : ℕ)
      → (j < 5 + p) ⊎ (5 + p + 3 ≤ j)
      → byte_at (copied buf n p) j ≡ byte_at (moved buf n p) j
  byte_at-copied_out j h =
      byte_at-overwrite_out (moved buf n p) (5 + p) (slice (moved buf n p) 0 3) j
        (omega (arith, length-head))

  byte_at-moved_out :
      (j : ℕ) → (j < 5 + p + 5) ⊎ (n + 5 ≤ j) → byte_at (moved buf n p) j ≡ byte_at buf j
  byte_at-moved_out j h =
      byte_at-overwrite_out buf (5 + p + 5) (slice buf (5 + p) (n - (5 + p))) j
        (omega (arith, length-tail))

  byte_at-moved_in :
      (k : ℕ) → p ≤ k → 5 + k < n → byte_at (moved buf n p) (10 + k) ≡ byte_at buf (5 + k)
  byte_at-moved_in k l h =
      byte_at-overwrite_in buf (5 + p + 5) (slice buf (5 + p) (n - (5 + p))) (10 + k) (omega arith)
        (omega (arith, length-tail)) (omega arith)
      ∙ byte_at-slice buf (5 + p) (n - (5 + p)) (10 + k - (5 + p + 5)) (omega arith)
      ∙ byte_at_cong buf (5 + p + (10 + k - (5 + p + 5))) (5 + k) (omega arith)

  byte_at-copied_head : (k : ℕ) → k < 3 → byte_at (copied buf n p) (5 + p + k) ≡ byte_at buf k
  byte_at-copied_head k h =
      byte_at-overwrite_in (moved buf n p) (5 + p) (slice (moved buf n p) 0 3) (5 + p + k)
        (omega arith) (omega (arith, length-head)) (omega (arith, length-moved))
      ∙ byte_at-slice (moved buf n p) 0 3 (5 + p + k - (5 + p)) (omega arith)
      ∙ byte_at_cong (moved buf n p) (0 + (5 + p + k - (5 + p))) k (omega arith)
      ∙ byte_at-moved_out k (omega arith)

  word_at-second_first : (r : ℕ) → p < 65536 → word_at (second buf n p r) 3 ≡ p
  word_at-second_first r h = omega (
    arith,
    byte_at-overwrite_out (first buf n p) (5 + p + 3) (be (r - p)) 3 (omega arith),
    byte_at-overwrite_out (first buf n p) (5 + p + 3) (be (r - p)) 4 (omega arith),
    word_at-overwrite-be (copied buf n p) 3 p (omega (arith, length-copied)) h,
  )

  word_at-second-second :
      (r : ℕ) → p ≤ r → r < 65536 → word_at (second buf n p r) (5 + p + 3) ≡ r - p
  word_at-second-second r l h =
      word_at-overwrite-be (first buf n p) (5 + p + 3) (r - p) (omega (arith, length-first))
        (omega arith)

-- `after` holds the record of `before`, with the length word `r`, cut in two behind `p` bytes.
pub record IsCut (before after : Bytes) (n p r : ℕ) : Type 0 where
  pub size : length after ≡ length before
  pub head : (k : ℕ) → k < 3 → byte_at after k ≡ byte_at before k
  pub head_again : (k : ℕ) → k < 3 → byte_at after (5 + p + k) ≡ byte_at before k
  pub len : word_at after 3 ≡ p
  pub len_again : word_at after (5 + p + 3) ≡ r - p
  pub body : (k : ℕ) → k < p → byte_at after (5 + k) ≡ byte_at before (5 + k)
  pub body_again : (k : ℕ) → p ≤ k → 5 + k < n → byte_at after (10 + k) ≡ byte_at before (5 + k)
  pub rest : (j : ℕ) → n + 5 ≤ j → byte_at after j ≡ byte_at before j

second-IsCut :
    (buf : Bytes) (n p r : ℕ)
    → n + 5 ≤ length buf
    → p + 5 ≤ n
    → p ≤ r
    → r < 65536
    → IsCut buf (second buf n p r) n p r
second-IsCut buf n p r room inside l h = record {
  size =
      length-overwrite (first buf n p) (5 + p + 3) (be (r - p)) ∙ length-first buf n p room inside;
  head = λ k b.
      byte_at-second_out buf n p room inside r k (inl b)
      ∙ byte_at-copied_out buf n p room inside k (omega arith)
      ∙ byte_at-moved_out buf n p room inside k (omega arith);
  head_again = λ k b.
      byte_at-second_out buf n p room inside r (5 + p + k) (inr (inl (omega arith, omega arith)))
      ∙ byte_at-copied_head buf n p room inside k b;
  len = word_at-second_first buf n p room inside r (omega arith);
  len_again = word_at-second-second buf n p room inside r l h;
  body = λ k b.
      byte_at-second_out buf n p room inside r (5 + k) (omega arith)
      ∙ byte_at-copied_out buf n p room inside (5 + k) (omega arith)
      ∙ byte_at-moved_out buf n p room inside (5 + k) (omega arith);
  body_again = λ k b c.
      byte_at-second_out buf n p room inside r (10 + k) (omega arith)
      ∙ byte_at-copied_out buf n p room inside (10 + k) (omega arith)
      ∙ byte_at-moved_in buf n p room inside k b c;
  rest = λ j b.
      byte_at-second_out buf n p room inside r j (omega arith)
      ∙ byte_at-copied_out buf n p room inside j (omega arith)
      ∙ byte_at-moved_out buf n p room inside j (omega arith);
}

-- With room for five more bytes and the cut inside the record, `part_tls` returns 5 and leaves two
-- records with the header of the old one: their lengths add up to the old length, and their
-- bodies are the old body cut at `p`. No byte behind is touched.
pub part_tls-IsCut :
    (buf : Bytes) (bsize n p : ℕ)
    → bsize ≤ length buf
    → bsize < 2 ^ 64
    → n + 5 ≤ bsize
    → p + 5 ≤ n
    → p ≤ word_at buf 3
    → Returns
        (part_tls buf bsize n (pos p))
        (λ (ret, after). (ret ≡ 5) × IsCut buf after n p (word_at buf 3))
unfolding part_tls
part_tls-IsCut buf bsize n p fits small room inside l =
    let room' : n + 5 ≤ length buf = omega arith in
    let r : ℕ = word_at buf 3 in
    (
      (5, second buf n p r),
      ground (arith, antohs-word_at buf 3, cut_record-second buf n p room' inside r),
      (refl, second-IsCut buf n p r room' inside l (omega arith)),
    )

-- A cut behind the end of the record is not made, though the result is not the 0 of a refusal: the
-- buffer is as it was, and the number returned is `n`.
pub part_tls_behind :
    (buf : Bytes) (bsize n p : ℕ)
    → bsize ≤ length buf
    → bsize < 2 ^ 64
    → n + 5 ≤ bsize
    → p + 5 ≤ n
    → word_at buf 3 < p
    → (part_tls buf bsize n (pos p) ≡ some (n, buf)) × (n ≢ 0)
unfolding part_tls
part_tls_behind buf bsize n p fits small room inside l = ground (arith, antohs-word_at buf 3)
