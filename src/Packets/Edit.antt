-- ===== src/Packets/Edit.antt =====
-- The functions of packets.c that rewrite a ClientHello in place: the records merged into one,
-- extensions removed or resized, the server name replaced. A result is the returned number and
-- the buffer afterwards; `none` is an access outside the buffer, or a loop out of fuel. The
-- results of rand() are a stream, one number for each call.
pub mod Merge
pub mod Name
pub mod Remove
use Prim.Native.Nat.{max}
use byedpi.Prelude.{
  ℕ, zero, suc, ◌+◌, ◌-◌, ◌*◌, ◌/◌, ◌%◌, ◌^◌, ◌&&◌, ◌||◌, not, Bool, true, false, Option, none,
  some, List, [], ◌∷◌, Bytes, read, store, memmove, length, replicate, ltb, leb, ◌==◌, ◌!=◌,
  if◌then◌else◌, ◌>>=◌,
}
use byedpi.Prelude.Int.{ℤ, pos, negsuc, ◌+ℤ◌, ◌-ℤ◌, ltb_ℤ}
use byedpi.Packets.Tls.{antohs_int, antohs, shtona, find_tls_ext_offset, find_ext_block}
use byedpi.Packets.Record.{sub_size}

abbrev pub Stream : Type 0
Stream = ℕ → ℕ

abbrev pub later : Stream → ℕ → Stream
later rnd n i = rnd (i + n)

-- An offset that is computed with signs; `none` in front of the buffer.
abbrev pub offset : ℤ → Option ℕ
offset (pos n) = some n
offset (negsuc n) = none

-- `x % 65536` for a number with a sign, as a store into 16 bits takes it.
abbrev pub cut16 : ℤ → ℕ
cut16 (pos n) = n % 65536
cut16 (negsuc n) = 65535 - n % 65536

abbrev pub is_zero : ℤ → Bool
is_zero (pos n) = n == 0
is_zero (negsuc n) = false

-- while (1) of merge_tls_records: the merged size, the buffer and the number of merges, or
-- `some none` when `fuel` rounds were not enough.
unfoldable pub merge_loop : ℕ → Bytes → ℕ → ℕ → ℕ → ℕ → Option (Option (ℕ × Bytes × ℕ))
merge_loop zero buf n full r_sz i = some none
merge_loop (suc fuel) buf n full r_sz i =
    let full' : ℕ = (full + r_sz) % 65536 in
    let again = λ (b : Bytes) (r : ℕ). merge_loop fuel b n full' r (i + 1) in
    if ltb (n - 5) (5 + full') then some (some (full', buf, i)) else (do
      mark ← read buf (5 + full')
      kind ← read buf 0
      if mark != kind then some (some (full', buf, i)) else (do
        r_sz' ← antohs buf (5 + full' + 3)
        if ltb n (full' + 10 + r_sz')
            then some (some (full', buf, i))
            else (do b ← memmove buf (5 + full') (10 + full') (n - (10 + full')); again b r_sz')))

-- The sizes are written, and the number of bytes that were taken out is returned.
abbrev pub put_sizes : Option (ℕ × Bytes × ℕ) → Option (Option (ℕ × Bytes))
put_sizes none = some none
put_sizes (some (full, b, i)) = do
  b1 ← shtona b 3 full
  b2 ← shtona b1 7 (cut16 (pos full -ℤ pos 4))
  some (some (i * 5, b2))

-- `some none` when the rounds were not enough.
unfoldable pub merge_tls_records : ℕ → Bytes → ℕ → Option (Option (ℕ × Bytes))
merge_tls_records fuel buf n =
    if ltb n 5
    then some (some (0, buf))
    else (do r_sz ← antohs buf 3; merged ← merge_loop fuel buf n 0 r_sz 0; put_sizes merged)

-- Without a result where the rounds were not enough.
abbrev pub finished {ℓ} : {A : Type ℓ} → Option (Option A) → Option A
finished none = none
finished (some r) = r

-- One character of copy_name.
unfoldable pub fill_char : ℕ → ℕ → ℕ
fill_char c r =
    if c == b'*'
    then (if ltb (r % 36) 10 then b'0' else b'a' - 10) + r % 36
    else if c == b'?'
    then b'a' + r % 26
    else if c == b'#'
    then b'0' + r % 10
    else c

abbrev pub is_wild : ℕ → Bool
is_wild c = c == b'*' || c == b'?' || c == b'#'

-- The characters that copy_name writes, and the rest of the stream.
unfoldable pub fill_name : Stream → Bytes → Bytes × Stream
unfolding fill_char
fill_name rnd [] = ([], rnd)
fill_name rnd (c ∷ cs) =
    let (out, rnd') = fill_name (later rnd (if is_wild c then 1 else 0)) cs in
    (fill_char c (rnd 0) ∷ out, rnd')

unfoldable pub copy_name : Stream → Bytes → ℕ → Bytes → Option (Bytes × Stream)
unfolding fill_name
copy_name rnd buf at name = do
  let filled = fill_name rnd name
  b ← store buf at filled.0
  some (b, filled.1)

-- while (g_offs + 4 < ks_offs + 4 + ks_sz) of remove_ks_group.
unfoldable pub ks_loop : ℕ → Bytes → ℕ → ℕ → ℕ → ℕ → ℕ → Option (ℕ × Bytes)
ks_loop zero buf n ks_offs ks_sz group g_offs = none
ks_loop (suc fuel) buf n ks_offs ks_sz group g_offs =
    let rest = λ (g_sz : ℕ). ks_loop fuel buf n ks_offs ks_sz group (g_offs + (4 + g_sz)) in
    if ltb (g_offs + 4) (ks_offs + 4 + ks_sz)
    then (do
      g_sz ← antohs buf (g_offs + 2)
      if ltb n (ks_offs + 4 + g_sz) then some (0, buf) else (do
        g_tp ← antohs buf g_offs
        if g_tp == group
            then (do
              let g_end = g_offs + 4 + g_sz
              b ← memmove buf g_offs g_end (sub_size n g_end)
              b1 ← shtona b (ks_offs + 2) (cut16 (pos ks_sz -ℤ pos (4 + g_sz)))
              b2 ← shtona b1 (ks_offs + 4) (cut16 (pos ks_sz -ℤ pos (4 + g_sz + 2)))
              some (4 + g_sz, b2))
            else rest g_sz))
    else some (0, buf)

unfoldable pub remove_ks_group : Bytes → ℕ → ℕ → ℕ → Option (ℕ × Bytes)
remove_ks_group buf n skip group = do
  ks_offs ← find_tls_ext_offset 0x33 buf n skip
  if ks_offs == 0 || leb n (ks_offs + 6) then some (0, buf) else (do
    ks_sz ← antohs_int buf (ks_offs + 2)
    if ltb n (ks_offs + 4 + ks_sz)
        then some (0, buf)
        else ks_loop (suc n) buf n ks_offs ks_sz group (ks_offs + 4 + 2))

unfoldable pub remove_tls_ext : Bytes → ℕ → ℕ → ℕ → Option (ℕ × Bytes)
remove_tls_ext buf n skip type = do
  ext_offs ← find_tls_ext_offset type buf n skip
  if ext_offs == 0 then some (0, buf) else (do
    ext_sz ← antohs buf (ext_offs + 2)
    let ext_end = ext_offs + 4 + ext_sz
    if ltb n ext_end
        then some (0, buf)
        else (do b ← memmove buf ext_offs ext_end (n - ext_end); some (ext_sz + 4, b)))
