-- ===== src/Packets/Edit/Remove.antt =====
-- The functions that take something out of a ClientHello.
use byedpi.Prelude.{
  ℕ, suc, ◌+◌, ◌-◌, ◌^◌, ◌≤◌, ◌<◌, ◌≡◌, ◌⊎◌, ◌∙◌, refl, inl, inr, none, some, arith, Bytes, length,
  byte_at, slice, overwrite, memmove, load, memmove-overwrite, length-slice, byte_at-slice,
  byte_at_cong, length-overwrite, byte_at-overwrite_in, byte_at-overwrite_out, Returns, Bool-cases,
  ltb, ◌==◌,
}
use byedpi.Packets.Tls.{find_tls_ext_offset}
use byedpi.Packets.Tls.Safe.{word_at, antohs-word_at, find_tls_ext_offset-Returns}
use byedpi.Packets.Edit.{remove_tls_ext, ks_loop}

-- `gap` bytes at `at` are gone from the first `n`, and those behind moved down.
pub record IsRemoved (before after : Bytes) (n at gap : ℕ) : Type 0 where
  pub size : length after ≡ length before
  pub front : (k : ℕ) → k < at → byte_at after k ≡ byte_at before k
  pub back : (k : ℕ) → at ≤ k → k + gap < n → byte_at after k ≡ byte_at before (k + gap)
  pub rest : (k : ℕ) → n ≤ k → byte_at after k ≡ byte_at before k

-- What remove_tls_ext does: it leaves the buffer alone, or removes the whole extension that the
-- search found, header included, and tells its size.
abbrev pub Removal : Bytes → ℕ → ℕ → ℕ → ℕ × Bytes → Type 0
Removal buf n skip type (ret, after) =
    ((ret ≡ 0) × (after ≡ buf))
    ⊎ ((at : ℕ) × (find_tls_ext_offset type buf n skip ≡ some at)
        × (word_at buf at ≡ type)
        × (at + ret ≤ n)
        × (ret ≡ word_at buf (at + 2) + 4)
        × IsRemoved buf after n at ret)

overwrite-IsRemoved :
    (buf : Bytes) (n at gap : ℕ)
    → n ≤ length buf
    → at + gap ≤ n
    → IsRemoved buf (overwrite buf at (slice buf (at + gap) (n - (at + gap)))) n at gap
overwrite-IsRemoved buf n at gap h k =
    let moved = slice buf (at + gap) (n - (at + gap)) in
    let len = length-slice buf (at + gap) (n - (at + gap)) (omega arith) in
    record {
      size = length-overwrite buf at moved;
      front = λ j b. byte_at-overwrite_out buf at moved j (inl b);
      back = λ j b c.
          byte_at-overwrite_in buf at moved j b (omega (arith, len)) (omega arith)
          ∙ byte_at-slice buf (at + gap) (n - (at + gap)) (j - at) (omega arith)
          ∙ byte_at_cong buf (at + gap + (j - at)) (j + gap) (omega arith);
      rest = λ j b. byte_at-overwrite_out buf at moved j (omega (arith, len));
    }

-- `remove_tls_ext` never faults, on any bytes, and its result is a removal.
pub remove_tls_ext-Returns :
    (buf : Bytes) (n skip type : ℕ)
    → n ≤ length buf
    → Returns (remove_tls_ext buf n skip type) (Removal buf n skip type)
unfolding remove_tls_ext
remove_tls_ext-Returns buf n skip type h =
    let (at, e, f) = find_tls_ext_offset-Returns type buf n skip h in
    rw e (elim (Bool-cases (at == 0)) [
      | inl z ↦ rw z ((0, buf), refl, inl (refl, refl))
      | inr z ↦
          let found : (at + 4 < n) × (word_at buf at ≡ type) = ground arith in
          let size : ℕ = word_at buf (at + 2) in
          rw (z, antohs-word_at buf (at + 2) (omega arith))
            (elim (Bool-cases (ltb n (at + 4 + size))) [
              | inl o ↦ rw o ((0, buf), refl, inl (refl, refl))
              | inr o ↦
                  let fits : at + 4 + size ≤ n = ground arith in
                  let after = overwrite buf at (slice buf (at + 4 + size) (n - (at + 4 + size))) in
                  let gap : at + 4 + size ≡ at + (size + 4) = omega arith in
                  rw
                    (
                      o,
                      memmove-overwrite buf at (at + 4 + size) (n - (at + 4 + size)) (omega arith)
                          (omega arith),
                    )
                    (
                      (size + 4, after),
                      refl,
                      inr (
                        at,
                        refl,
                        found.1,
                        omega arith,
                        refl,
                        rw gap (overwrite-IsRemoved buf n at (size + 4) h (omega arith)),
                      ),
                    )
            ])
    ])

-- The length of a key share is tested against the start of the extension, not of the share: at a
-- share of the wanted group that ends behind the data, though not by as much as it lies
-- behind that start, the number of bytes to move is negative, and `memmove` leaves the buffer.
pub ks_loop_overrun :
    (fuel : ℕ) (buf : Bytes) (n ks_offs ks_sz at : ℕ)
    → n ≤ length buf
    → length buf < 2 ^ 63
    → at + 3 < n
    → at + 4 < ks_offs + 4 + ks_sz
    → ks_offs + 4 + word_at buf (at + 2) ≤ n
    → n < at + 4 + word_at buf (at + 2)
    → ks_loop (suc fuel) buf n ks_offs ks_sz (word_at buf at) at ≡ none
unfolding ks_loop memmove load
ks_loop_overrun fuel buf n ks_offs ks_sz at h small inside more first second =
    ground (arith, antohs-word_at buf at, antohs-word_at buf (at + 2))
