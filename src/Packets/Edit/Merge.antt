-- ===== src/Packets/Edit/Merge.antt =====
-- The loop of merge_tls_records on a record that is empty.
use byedpi.Prelude.{
  ℕ, zero, suc, ◌+◌, ◌-◌, ◌%◌, ◌*◌, ◌≤◌, ◌≡◌, refl, ap, ◌∙◌, false, read, none, some, [], ◌∷◌,
  arith, Bytes, memmove, length, byte_at, overwrite, memmove-overwrite, read-byte_at, ltb, ◌!=◌,
}
use byedpi.Packets.Tls.Safe.{word_at, antohs-word_at}
use byedpi.Packets.Tls.{antohs}
use byedpi.Packets.Edit.{merge_loop, merge_tls_records}

overwrite-nil : (buf : Bytes) (i : ℕ) → overwrite buf i [] ≡ buf
unfolding overwrite
overwrite-nil [] i = refl
overwrite-nil (b ∷ bs) zero = refl
overwrite-nil (b ∷ bs) (suc i) = rw (overwrite-nil bs i)

-- The data end in an empty record with the type of the first one, `full` bytes behind the header.
pub record EndsEmpty (buf : Bytes) (n full : ℕ) : Type 0 where
  pub ends : n ≡ full + 10
  pub same_type : byte_at buf (5 + full) ≡ byte_at buf 0
  pub empty : word_at buf (5 + full + 3) ≡ 0

merge_loop-empty :
    (fuel : ℕ) (buf : Bytes) (n full r f i : ℕ)
    → n ≤ length buf
    → (full + r) % 65536 ≡ f
    → EndsEmpty buf n f
    → merge_loop fuel buf n full r i ≡ some none
unfolding merge_loop
merge_loop-empty zero buf n full r f i h k e = refl
merge_loop-empty (suc fuel) buf n full r f i h k e =
    let none_left : n - (10 + f) ≡ 0 = omega arith in
    let same : memmove buf (5 + f) (10 + f) 0 ≡ some buf =
      rw (memmove-overwrite buf (5 + f) (10 + f) 0 (omega arith) (omega arith))
        (ap some (overwrite-nil buf (5 + f))) in
    let not_past : ltb (n - 5) (5 + f) ≡ false = ground arith in
    let mark : read buf (5 + f) ≡ some (byte_at buf 0) =
      read-byte_at buf (5 + f) (omega arith) ∙ ap some e.same_type in
    let kind = read-byte_at buf 0 (omega arith) in
    let equal : (byte_at buf 0 != byte_at buf 0) ≡ false = ground arith in
    let size : antohs buf (5 + f + 3) ≡ some 0 =
      antohs-word_at buf (5 + f + 3) (omega arith) ∙ ap some e.empty in
    let fits : ltb n (f + 10 + 0) ≡ false = ground arith in
    rw (k, none_left, not_past, mark, kind)
      (rw (equal, size)
        (rw (fits, same) (merge_loop-empty fuel buf n f 0 f (i + 1) h (omega arith) e)))

-- On a buffer of exactly two records, of which the second is empty and of the type of the first,
-- merge_tls_records uses up any number of rounds without an access outside the buffer and without
-- coming to an end: it never returns.
pub merge_tls_records-empty :
    (fuel : ℕ) (buf : Bytes) (n : ℕ)
    → n ≤ length buf
    → EndsEmpty buf n (word_at buf 3)
    → merge_tls_records fuel buf n ≡ some none
unfolding merge_tls_records
merge_tls_records-empty fuel buf n h e =
    let size : antohs buf 3 ≡ some (word_at buf 3) = antohs-word_at buf 3 (omega (arith, e.ends)) in
    let long : ltb n 5 ≡ false = ground (arith, e.ends) in
    let unending =
      merge_loop-empty fuel buf n 0 (word_at buf 3) (word_at buf 3) 0 h
        (reduced ((byte_at buf 3) * 256 + byte_at buf 4)) e in
    rw (long, size) (rw unending refl)
  where
    reduced : (x : ℕ) → (0 + x % 65536) % 65536 ≡ x % 65536
    reduced x = omega arith
