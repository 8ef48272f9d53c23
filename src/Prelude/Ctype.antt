-- ===== src/Prelude/Ctype.antt =====
-- What the source uses of <ctype.h>, <string.h> and <stdlib.h>, in the "C" locale, on objects with
-- checked reads. A search answers with an offset into the object.
use Prim.Native.Nat.{ℕ, zero, suc, ◌+◌, ◌-◌, ◌*◌}
use mathlib.Core.Bool.{Bool, true, false, ◌&&◌, ◌||◌}
use mathlib.Core.List.{[], ◌∷◌}
use mathlib.Core.Option.{Option, none, some}
use Prim.Native.Char.{code}
use Prim.Native.String.{String}
use byedpi.Prelude.Tests.{leb, ◌==◌, if◌then◌else◌, ◌>>=◌}
use byedpi.Prelude.Lists.{length}
use byedpi.Prelude.Memory.{Bytes, read}
use byedpi.Prelude.Int.{ℤ, pos, ◌-ℤ◌}

-- The bytes of an ASCII literal.
abbrev pub codes : String → Bytes
codes String.[] = []
codes (String.◌∷◌ c s) = code c ∷ codes s

unfoldable pub is_space : ℕ → Bool
is_space c = c == 32 || (leb 9 c && leb c 13)

unfoldable pub is_digit : ℕ → Bool
is_digit c = leb b'0' c && leb c b'9'

unfoldable pub to_lower : ℕ → ℕ
to_lower c = if leb b'A' c && leb c b'Z' then c + 32 else c

unfoldable pub to_upper : ℕ → ℕ
to_upper c = if leb b'a' c && leb c b'z' then c - 32 else c

-- memchr(buf + at, c, count).
unfoldable pub memchr : Bytes → ℕ → ℕ → ℕ → Option (Option ℕ)
memchr buf at c zero = some none
memchr buf at c (suc count) = do
  b ← read buf at
  if b == c then some (some at) else memchr buf (at + 1) c count

-- !strncmp(buf + at, text, strlen(text)): reading stops at the first difference.
unfoldable pub starts_at : Bytes → ℕ → Bytes → Option Bool
starts_at buf at [] = some true
starts_at buf at (t ∷ ts) = do
  b ← read buf at
  if b == t then starts_at buf (at + 1) ts else some false

-- !strncasecmp(buf + at, text, strlen(text)).
unfoldable pub starts_fold_at : Bytes → ℕ → Bytes → Option Bool
unfolding to_lower
starts_fold_at buf at [] = some true
starts_fold_at buf at (t ∷ ts) = do
  b ← read buf at
  if to_lower b == to_lower t then starts_fold_at buf (at + 1) ts else some false

-- memcmp(buf + i, other + j, count) == 0.
unfoldable pub same_bytes : Bytes → ℕ → Bytes → ℕ → ℕ → Option Bool
same_bytes buf i other j zero = some true
same_bytes buf i other j (suc count) = do
  a ← read buf i
  b ← read other j
  if a == b then same_bytes buf (i + 1) other (j + 1) count else some false

-- The digits of strtol: the value and the offset behind them. A value too large for `long` is not
-- cut to LONG_MAX: every caller refuses it either way.
unfoldable pub scan_digits : ℕ → Bytes → ℕ → ℕ → Option (ℕ × ℕ)
unfolding is_digit
scan_digits zero buf at acc = none
scan_digits (suc fuel) buf at acc = do
  c ← read buf at
  if is_digit c then scan_digits fuel buf (at + 1) (acc * 10 + (c - b'0')) else some (acc, at)

unfoldable pub skip_space : ℕ → Bytes → ℕ → Option ℕ
unfolding is_space
skip_space zero buf at = none
skip_space (suc fuel) buf at = do
  c ← read buf at
  if is_space c then skip_space fuel buf (at + 1) else some at

-- strtol(buf + at, &end, 10): the number and `end`, which is `at` if there is no digit.
unfoldable pub strtol10 : Bytes → ℕ → Option (ℤ × ℕ)
unfolding scan_digits skip_space
strtol10 buf at = do
  start ← skip_space (suc (length buf)) buf at
  sign ← read buf start
  let first = if sign == b'-' || sign == b'+' then start + 1 else start
  (value, end) ← scan_digits (suc (length buf)) buf first 0
  some (
      if end == first
      then (pos 0, at)
      else if sign == b'-'
      then (pos 0 -ℤ pos value, end)
      else (pos value, end))
