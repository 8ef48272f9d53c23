-- ===== src/Packets/Sni.antt =====
-- change_tls_sni and randomize_tls of packets.c, with the two resizing helpers. Conventions as in
-- Packets/Edit.antt.
use byedpi.Prelude.{
  ℕ, zero, suc, ◌+◌, ◌-◌, ◌%◌, ◌&&◌, ◌||◌, not, Bool, Option, none, some, List, [], ◌∷◌, Bytes,
  read, store, memmove, length, replicate, ltb, leb, ◌==◌, if◌then◌else◌, ◌>>=◌,
}
use byedpi.Prelude.Int.{ℤ, pos, negsuc, pos_part, ◌+ℤ◌, ◌-ℤ◌, ltb_ℤ}
use byedpi.Packets.Tls.{antohs_int, antohs, shtona, find_tls_ext_offset, find_ext_block}
use byedpi.Packets.Record.{sub_size}
use byedpi.Packets.Edit.{
  Stream, later, offset, cut16, finished, is_zero, merge_tls_records, copy_name, remove_ks_group,
  remove_tls_ext,
}

-- A signed number of bytes as memmove takes it; a negative one is a huge `size_t`.
abbrev pub as_size : ℤ → ℕ
as_size (pos n) = n
as_size (negsuc n) = sub_size 0 (suc n)

unfoldable pub resize_ech_ext : Bytes → ℕ → ℕ → ℤ → Option (ℤ × Bytes)
resize_ech_ext buf n skip inc = do
  ech_offs ← find_tls_ext_offset 0xfe0d buf n skip
  if ech_offs == 0 then some (pos 0, buf) else (do
    ech_sz ← antohs buf (ech_offs + 2)
    let ech_end = ech_offs + 4 + ech_sz
    if ltb ech_sz 12 || ltb n ech_end then some (pos 0, buf) else (do
      enc_sz ← antohs buf (ech_offs + 4 + 6)
      let pay_offs = ech_offs + 4 + 8 + enc_sz
      let pay_sz = cut16 (pos ech_sz -ℤ pos (8 + enc_sz + 2))
      if ltb n (pay_offs + 2) then some (pos 0, buf) else (do
        let inc' = if ltb_ℤ (pos pay_sz) (pos 0 -ℤ inc) then pos 0 -ℤ pos pay_sz else inc
        b ← shtona buf (ech_offs + 2) (cut16 (pos ech_sz +ℤ inc'))
        b1 ← shtona b pay_offs (cut16 (pos pay_sz +ℤ inc'))
        to ← offset (pos ech_end +ℤ inc')
        b2 ← memmove b1 to ech_end (as_size (pos n -ℤ (pos ech_end +ℤ inc')))
        some (inc', b2))))

-- `sni_end + new_sz - (sni_sz - 5)` is not negative, since `sni_end` is at least `sni_sz`.
unfoldable pub resize_sni : Bytes → ℕ → ℕ → ℕ → ℕ → Option Bytes
resize_sni buf n sni_offs sni_sz new_sz = do
  b ← shtona buf (sni_offs + 2) (new_sz + 5)
  b1 ← shtona b (sni_offs + 4) (new_sz + 3)
  b2 ← shtona b1 (sni_offs + 7) new_sz
  let sni_end = sni_offs + 4 + sni_sz
  memmove b2 (sni_end + new_sz + 5 - sni_sz) sni_end (sub_size n sni_end)

-- The extensions to remove for room, in order; the source ends the array with a 0.
abbrev pub exts : List ℕ
exts = 0x15 ∷ 0x31 ∷ 0x10 ∷ 0x1c ∷ 0x23 ∷ 0x05 ∷ 0x22 ∷ 0x12 ∷ 0x1b ∷ []

-- The test of the loop over them.
abbrev pub short : ℤ → Bool
short avail = not (is_zero avail) && ltb_ℤ avail (pos 4)

-- The loop; the inner `none` is the return of -1 at the end of the array.
unfoldable pub remove_exts : List ℕ → Bytes → ℕ → ℕ → ℤ → Option (Option (ℤ × Bytes))
remove_exts [] buf n skip avail = if short avail then some none else some (some (avail, buf))
remove_exts (e ∷ es) buf n skip avail =
    if short avail
    then (do
      (gained, b) ← remove_tls_ext buf n skip e
      remove_exts es b n skip (avail +ℤ pos gained))
    else some (some (avail, buf))

-- The padding extension that fills the rest of the record.
unfoldable pub pad_record : Bytes → ℕ → ℤ → Option Bytes
pad_record buf r_sz avail = if ltb_ℤ avail (pos 4) then some buf else (do
  let size = pos_part avail - 4
  at ← offset (pos (5 + r_sz) -ℤ avail)
  b ← shtona buf at 0x15
  b1 ← shtona b (at + 2) size
  store b1 (at + 4) (replicate size 0))

abbrev pub fail : Bytes → Option (ℤ × Bytes)
fail buf = some (negsuc 0, buf)

-- From the second search for the name to the end of change_tls_sni.
unfoldable pub place_sni : Stream → Bytes → Bytes → ℕ → ℕ → ℕ → ℕ → ℤ → ℤ → Option (ℤ × Bytes)
place_sni rnd host buf n skip sni_sz r_sz avail diff = do
  let new_sz = length host % 65536
  sni_offs ← find_tls_ext_offset 0 buf n skip
  if sni_offs == 0 then fail buf else (do
    b ← if is_zero diff then some buf else resize_sni buf n sni_offs sni_sz new_sz
    (b1, _) ← copy_name rnd b (sni_offs + 9) host
    (gain, b2) ← if ltb_ℤ (pos 0) avail then resize_ech_ext b1 n skip avail else some (pos 0, b1)
    b3 ← pad_record b2 r_sz (avail -ℤ gain)
    b4 ← shtona b3 3 r_sz
    b5 ← shtona b4 7 (cut16 (pos r_sz -ℤ pos 4))
    b6 ← shtona b5 skip (cut16 (pos (5 + r_sz) -ℤ pos (skip + 2)))
    some (pos 0, b6))

-- From the size of the new name to the second search: room is taken from the name, from the ECH
-- extension, from a key share and from the extensions of the list.
unfoldable pub make_room : Stream → Bytes → Bytes → ℕ → ℕ → ℕ → ℕ → ℕ → ℤ → Option (ℤ × Bytes)
make_room rnd host buf n skip sni_offs sni_sz r_sz avail0 = do
  let new_sz = length host % 65536
  let diff0 = pos (new_sz + 5) -ℤ pos sni_sz
  let avail1 = avail0 -ℤ diff0
  let shrink = ltb_ℤ diff0 (pos 0) && ltb_ℤ (pos 0) avail1
  b ← if shrink then resize_sni buf n sni_offs sni_sz new_sz else some buf
  (gain, b1) ← if is_zero avail1 then some (pos 0, b) else resize_ech_ext b n skip avail1
  let avail2 = avail1 -ℤ gain
  (ks, b2) ← if ltb_ℤ avail2 (negsuc 49) then remove_ks_group b1 n skip 0x11ec else some (0, b1)
  left ← remove_exts exts b2 n skip (avail2 +ℤ pos ks)
  elim left [
    | none ↦ fail b2
    | some (avail3, b3) ↦
        place_sni rnd host b3 n skip sni_sz r_sz avail3 (if shrink then pos 0 else diff0)
  ]

-- `nn` may be less than `n`: the difference is a signed number.
unfoldable pub change_tls_sni : ℕ → Stream → Bytes → Bytes → ℕ → ℤ → Option (ℤ × Bytes)
change_tls_sni fuel rnd host buf n nn = do
  (merged, b) ← finished (merge_tls_records fuel buf n)
  let avail = pos merged +ℤ (nn -ℤ pos n)
  len ← antohs b 3
  let r_sz = cut16 (pos len +ℤ avail)
  skip ← find_ext_block b n
  if skip == 0 then fail b else (do
    sni_offs ← find_tls_ext_offset 0 b n skip
    if sni_offs == 0 then fail b else (do
      sni_sz ← antohs b (sni_offs + 2)
      if ltb n (sni_offs + 4 + sni_sz)
          then fail b
          else make_room rnd host b n skip sni_offs sni_sz r_sz avail))

-- `len` results of rand(), each cut to a byte.
unfoldable pub gen_rand_array : Stream → ℕ → Bytes × Stream
gen_rand_array rnd zero = ([], rnd)
gen_rand_array rnd (suc len) =
    let (out, rnd') = gen_rand_array (later rnd 1) len in ((rnd 0 % 256) ∷ out, rnd')

unfoldable pub put_random : Stream → Bytes → ℕ → ℕ → Option (Bytes × Stream)
unfolding gen_rand_array
put_random rnd buf at len = do
  let filled = gen_rand_array rnd len
  b ← store buf at filled.0
  some (b, filled.1)

-- while (g_offs + 4 < ks_offs + 4 + ks_sz) of randomize_tls.
unfoldable pub randomize_groups : ℕ → Stream → Bytes → ℕ → ℕ → ℕ → ℕ → Option Bytes
randomize_groups zero rnd buf n ks_offs ks_sz g_offs = none
randomize_groups (suc fuel) rnd buf n ks_offs ks_sz g_offs =
    let again = λ (b : Bytes) (r : Stream) (g : ℕ). randomize_groups fuel r b n ks_offs ks_sz g in
    if ltb (g_offs + 4) (ks_offs + 4 + ks_sz)
    then (do
      g_sz ← antohs buf (g_offs + 2)
      if ltb n (ks_offs + 4 + g_sz) then some buf else (do
        (b, rnd') ← put_random rnd buf (g_offs + 4) g_sz
        again b rnd' (g_offs + (4 + g_sz))))
    else some buf

-- The key shares of randomize_tls.
unfoldable pub randomize_shares : Stream → Bytes → ℕ → Option Bytes
randomize_shares rnd buf n = do
  skip ← find_ext_block buf n
  if skip == 0 then some buf else (do
    ks_offs ← find_tls_ext_offset 0x33 buf n skip
    if ks_offs == 0 || leb n (ks_offs + 6) then some buf else (do
      ks_sz ← antohs_int buf (ks_offs + 2)
      if ltb n (ks_offs + 4 + ks_sz)
          then some buf
          else randomize_groups (suc n) rnd buf n ks_offs ks_sz (ks_offs + 4 + 2)))

unfoldable pub randomize_tls : Stream → Bytes → ℕ → Option Bytes
randomize_tls rnd buf n = if ltb n 44 then some buf else (do
  sid_len ← read buf 43
  if ltb n (44 + sid_len + 2) then some buf else (do
    (b, rnd1) ← put_random rnd buf 11 32
    (b1, rnd2) ← put_random rnd1 b 44 sid_len
    randomize_shares rnd2 b1 n))
