-- ===== src/Packets/Record.antt =====
-- Cutting one TLS record in two: part_tls of packets.c. The result is the returned number and the
-- buffer afterwards; `none` is an access outside the buffer.
pub mod Split
use byedpi.Prelude.{
  ℕ, ◌+◌, ◌-◌, ◌%◌, ◌^◌, ◌||◌, Option, some, Bytes, load, store, memmove, ltb, if◌then◌else◌, ◌>>=◌,
}
use byedpi.Prelude.Int.{ℤ, pos, negsuc}
use byedpi.Packets.Tls.{antohs, shtona}

-- Subtraction of `size_t`.
abbrev pub sub_size : ℕ → ℕ → ℕ
sub_size a b = (a + 2 ^ 64 - b) % 2 ^ 64

-- The header is copied in front of the second part, and both lengths are set.
unfoldable pub cut_record : Bytes → ℕ → ℕ → ℕ → Option (ℕ × Bytes)
cut_record buf n p r_sz = do
  moved ← memmove buf (5 + p + 5) (5 + p) (n - (5 + p))
  head ← load moved 0 3
  copied ← store moved (5 + p) head
  first ← shtona copied 3 p
  second ← shtona first (5 + p + 3) (r_sz - p)
  some (5, second)

-- `n` is not negative at any call.
unfoldable pub part_tls : Bytes → ℕ → ℕ → ℤ → Option (ℕ × Bytes)
part_tls buf bsize n (negsuc k) = some (0, buf)
part_tls buf bsize n (pos p) =
    if ltb n 3 || ltb (sub_size bsize n) 5 || ltb n (p + 5)
    then some (0, buf)
    else (do r_sz ← antohs buf 3; if ltb r_sz p then some (n, buf) else cut_record buf n p r_sz)
