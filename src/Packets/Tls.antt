-- ===== src/Packets/Tls.antt =====
-- The TLS parsers of packets.c, with ANTOHS and SHTONA of packets.h. A buffer is the whole C object
-- behind a pointer; a result `none` is a read outside of it, or a loop that used up its fuel.
pub mod Safe
pub mod Chain
use byedpi.Prelude.{
  ℕ, zero, suc, ◌+◌, ◌-◌, ◌*◌, ◌/◌, ◌%◌, ◌≡◌, Bool, true, false, ◌&&◌, ◌||◌, Option, none, some,
  List, [], ◌∷◌, Bytes, read, store, ltb, leb, ◌==◌, if◌then◌else◌, ◌>>=◌,
}

-- (uint16_t)c for a signed `char`: the sign is extended.
unfoldable pub widen : ℕ → ℕ
widen c = if ltb c 128 then c else c + 0xff00

-- ANTOHS: the `int` value of the macro.
unfoldable pub antohs_int : Bytes → ℕ → Option ℕ
unfolding widen
antohs_int buf i = do hi ← read buf i; lo ← read buf (i + 1); some (widen hi * 256 + lo)

-- ANTOHS assigned to a `uint16_t`.
unfoldable pub antohs : Bytes → ℕ → Option ℕ
unfolding antohs_int
antohs buf i = do v ← antohs_int buf i; some (v % 65536)

-- SHTONA of a value below 2 ^ 16 or above: the high byte is cut to 8 bits, the low one is masked.
unfoldable pub shtona : Bytes → ℕ → ℕ → Option Bytes
shtona buf i x = store buf i ((x / 256 % 256) ∷ (x % 256) ∷ [])

-- while ((skip + 4) < size) of find_tls_ext_offset.
unfoldable pub find_ext : ℕ → ℕ → Bytes → ℕ → ℕ → Option ℕ
find_ext zero type buf size skip = none
find_ext (suc fuel) type buf size skip =
    let rest = λ (len : ℕ). find_ext fuel type buf size (skip + (len + 4)) in
    if ltb (skip + 4) size
    then (do
      epyt ← antohs buf skip
      if type == epyt then some skip else (antohs buf (skip + 2) >>= rest))
    else some 0

-- Each round moves `skip` on, so `size + 1` rounds are enough.
unfoldable pub find_tls_ext_offset : ℕ → Bytes → ℕ → ℕ → Option ℕ
find_tls_ext_offset type buf size skip = if leb size (skip + 2) then some 0 else (do
  ext_len ← antohs buf skip
  let size' = if ltb ext_len (size - (skip + 2)) then ext_len + (skip + 2) else size
  find_ext (suc size) type buf size' (skip + 2))

unfoldable pub find_ext_block : Bytes → ℕ → Option ℕ
find_ext_block buf size = if ltb size 44 then some 0 else (do
  sid_len ← read buf 43
  if ltb size (44 + sid_len + 2) then some 0 else (do
    cip_len ← antohs buf (44 + sid_len)
    let skip = 44 + sid_len + 2 + cip_len + 2
    some (if ltb size skip then 0 else skip)))

-- The two tests of a handshake record differ in the type of the message.
unfoldable pub is_tls_hello : ℕ → Bytes → ℕ → Option Bool
is_tls_hello msg buf bsize =
    if ltb 5 bsize
    then (do
      v ← antohs_int buf 0
      if v == 0x1603 then (do t ← read buf 5; some (t == msg)) else some false)
    else some false

unfoldable pub is_tls_chello : Bytes → ℕ → Option Bool
unfolding is_tls_hello
is_tls_chello = is_tls_hello 1

unfoldable pub is_tls_shello : Bytes → ℕ → Option Bool
unfolding is_tls_hello
is_tls_shello = is_tls_hello 2

-- `*hs` as an offset into the buffer, `none` where the function leaves it alone.
pub record Host : Type 0 where
  pub len : ℕ
  pub hs : Option ℕ

abbrev pub no_host : Host
no_host = record { len = 0; hs = none }

unfoldable pub parse_tls : Bytes → ℕ → Option Host
parse_tls buf bsize = do
  hello ← is_tls_chello buf bsize
  if hello
      then (do
        skip ← find_ext_block buf bsize
        if skip == 0 then some no_host else (do
          sni_offs ← find_tls_ext_offset 0 buf bsize skip
          if (sni_offs == 0) || leb bsize (sni_offs + 12) then some no_host else (do
            len ← antohs buf (sni_offs + 7)
            some (
                if ltb bsize (sni_offs + 9 + len)
                then no_host
                else record { len = len; hs = some (sni_offs + 9) }))))
      else some no_host
