-- ===== src/Packets/Tls/Safe.antt =====
-- No read of the TLS parsers leaves the buffer, and every loop ends.
use byedpi.Prelude.{
  ℕ, zero, suc, ◌+◌, ◌-◌, ◌*◌, ◌%◌, ◌≤◌, ◌<◌, ◌≡◌, ◌≢◌, refl, ◌⊎◌, inl, inr, true, false, ◌||◌,
  none, some, arith, Bytes, length, byte_at, read-byte_at, Returns, Bool-cases, ltb, leb, ltb→lt,
  ◌==◌,
}
use byedpi.Packets.Tls.{
  widen, antohs_int, antohs, find_ext, find_tls_ext_offset, find_ext_block, is_tls_hello,
  is_tls_chello, Host, no_host, parse_tls,
}

-- The big-endian 16-bit word at `i`.
abbrev pub word_at : Bytes → ℕ → ℕ
word_at buf i = (byte_at buf i * 256 + byte_at buf (i + 1)) % 65536

pub antohs-word_at :
    (buf : Bytes) (i : ℕ) → i + 1 < length buf → antohs buf i ≡ some (word_at buf i)
unfolding antohs
antohs-word_at buf i h = ground (arith, read-byte_at buf i, read-byte_at buf (i + 1))

-- What the search for an extension promises: nothing found, or an offset inside the block.
abbrev pub Found : Bytes → ℕ → ℕ → ℕ → ℕ → Type 0
Found buf type size skip r = (r ≡ 0) ⊎ ((skip ≤ r) × (r + 4 < size) × (word_at buf r ≡ type))

Found-later :
    (buf : Bytes) (type size skip n r : ℕ)
    → Found buf type size (skip + n) r
    → Found buf type size skip r
Found-later buf type size skip n r f = ground arith

find_ext-Returns :
    (fuel type : ℕ) (buf : Bytes) (size skip : ℕ)
    → size ≤ length buf
    → size - skip < fuel
    → Returns (find_ext fuel type buf size skip) (Found buf type size skip)
unfolding find_ext
find_ext-Returns zero type buf size skip h k = absurd (omega arith)
find_ext-Returns (suc fuel) type buf size skip h k = elim (Bool-cases (ltb (skip + 4) size)) [
  | inr t ↦ rw t (0, refl, inl refl)
  | inl t ↦
      let more : skip + 4 < size = ltb→lt (skip + 4) size t in
      let len : ℕ = word_at buf (skip + 2) in
      rw (t, antohs-word_at buf skip (omega arith))
        (elim (Bool-cases (type == word_at buf skip)) [
          | inl m ↦ rw m (skip, refl, inr (omega arith, more, ground arith))
          | inr m ↦
              rw (m, antohs-word_at buf (skip + 2) (omega arith))
                (let (r, e, f) =
                    find_ext-Returns fuel type buf size (skip + (len + 4)) h (omega arith) in
                  (r, e, Found-later buf type size skip (len + 4) r f))
        ])
]

-- The search never reads outside the buffer and always ends; what it returns is 0 or the offset
-- of a header of the wanted type inside the first `size` bytes, behind the length word.
pub find_tls_ext_offset-Returns :
    (type : ℕ) (buf : Bytes) (size skip : ℕ)
    → size ≤ length buf
    → Returns (find_tls_ext_offset type buf size skip) (Found buf type size (skip + 2))
unfolding find_tls_ext_offset
find_tls_ext_offset-Returns type buf size skip h = elim (Bool-cases (leb size (skip + 2))) [
  | inl t ↦ rw t (0, refl, inl refl)
  | inr t ↦
      let room : skip + 2 < size = ground arith in
      rw (t, antohs-word_at buf skip (omega arith))
        (elim (Bool-cases (ltb (word_at buf skip) (size - (skip + 2)))) [
          | inl s ↦
              let cut : word_at buf skip < size - (skip + 2) =
                ltb→lt (word_at buf skip) (size - (skip + 2)) s in
              let bound : ℕ = word_at buf skip + (skip + 2) in
              let (r, e, f) =
                find_ext-Returns (suc size) type buf bound (skip + 2) (omega arith) (omega arith) in
              rw s (r, e, ground arith)
          | inr s ↦ rw s (find_ext-Returns (suc size) type buf size (skip + 2) h (omega arith))
        ])
]

-- The end of the session id and cipher suites, where the extension block begins: 0 or inside.
pub find_ext_block-Returns :
    (buf : Bytes) (size : ℕ)
    → size ≤ length buf
    → Returns (find_ext_block buf size) (λ r. (r ≡ 0) ⊎ ((48 ≤ r) × (r ≤ size)))
unfolding find_ext_block
find_ext_block-Returns buf size h = elim (Bool-cases (ltb size 44)) [
  | inl t ↦ rw t (0, refl, inl refl)
  | inr t ↦
      let room : 44 ≤ size = ground arith in
      let sid : ℕ = byte_at buf 43 in
      rw (t, read-byte_at buf 43 (omega arith))
        (elim (Bool-cases (ltb size (44 + sid + 2))) [
          | inl s ↦ rw s (0, refl, inl refl)
          | inr s ↦
              let fits : 44 + sid + 2 ≤ size = ground arith in
              let skip : ℕ = 44 + sid + 2 + word_at buf (44 + sid) + 2 in
              rw (s, antohs-word_at buf (44 + sid) (omega arith))
                (elim (Bool-cases (ltb size skip)) [
                  | inl o ↦ rw o (0, refl, inl refl)
                  | inr o ↦ rw o (skip, refl, inr (omega arith, ground arith))
                ])
        ])
]

pub antohs_int-word :
    (buf : Bytes) (i : ℕ)
    → i + 1 < length buf
    → antohs_int buf i ≡ some (widen (byte_at buf i) * 256 + byte_at buf (i + 1))
unfolding antohs_int
antohs_int-word buf i h = ground (arith, read-byte_at buf i, read-byte_at buf (i + 1))

pub is_tls_hello-Returns :
    (msg : ℕ) (buf : Bytes) (size : ℕ)
    → size ≤ length buf
    → Returns (is_tls_hello msg buf size) (λ b. b ≡ true → (5 < size) × (byte_at buf 5 ≡ msg))
unfolding is_tls_hello
is_tls_hello-Returns msg buf size h = elim (Bool-cases (ltb 5 size)) [
  | inr t ↦ rw t (false, refl, λ e. cc)
  | inl t ↦
      let room : 5 < size = ltb→lt 5 size t in
      rw (t, antohs_int-word buf 0 (omega arith))
        (elim (Bool-cases (widen (byte_at buf 0) * 256 + byte_at buf (0 + 1) == 0x1603)) [
          | inr v ↦ rw v (false, refl, λ e. cc)
          | inl v ↦
              rw (v, read-byte_at buf 5 (omega arith))
                (byte_at buf 5 == msg, refl, λ e. (room, ground arith))
        ])
]

-- What a caller of `parse_tls` may rely on: an empty name, or a name inside the first `size` bytes.
abbrev pub HostWithin : ℕ → Host → Type 0
HostWithin size r =
    ((r.len ≡ 0) × (r.hs ≡ none)) ⊎ ((o : ℕ) × (r.hs ≡ some o) × (57 < o) × (o + r.len ≤ size))

-- `parse_tls` never reads outside the buffer and always ends, on any bytes; a name that it returns
-- lies inside the first `size` bytes.
pub parse_tls-Returns :
    (buf : Bytes) (size : ℕ) → size ≤ length buf → Returns (parse_tls buf size) (HostWithin size)
unfolding parse_tls is_tls_chello
parse_tls-Returns buf size h =
    let nothing : HostWithin size no_host = inl (refl, refl) in
    let (hello, e, _) = is_tls_hello-Returns 1 buf size h in
    rw e (elim (Bool-cases hello) [
      | inr n ↦ rw n (no_host, refl, nothing)
      | inl y ↦
          let (skip, e', b) = find_ext_block-Returns buf size h in
          rw (y, e')
            (elim (Bool-cases (skip == 0)) [
              | inl z ↦ rw z (no_host, refl, nothing)
              | inr z ↦
                  let (sni, e'', f) = find_tls_ext_offset-Returns 0 buf size skip h in
                  rw (z, e'')
                    (elim (Bool-cases ((sni == 0) || leb size (sni + 12))) [
                      | inl s ↦ rw s (no_host, refl, nothing)
                      | inr s ↦
                          let room : (sni ≢ 0) × (sni + 12 < size) = ground arith in
                          rw (s, antohs-word_at buf (sni + 7) (omega arith))
                            (elim (Bool-cases (ltb size (sni + 9 + word_at buf (sni + 7)))) [
                              | inl o ↦ rw o (no_host, refl, nothing)
                              | inr o ↦ rw o (
                                record { len = word_at buf (sni + 7); hs = some (sni + 9) },
                                refl,
                                inr (sni + 9, refl, ground arith, ground arith),
                              )
                            ])
                    ])
            ])
    ])
