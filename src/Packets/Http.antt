-- ===== src/Packets/Http.antt =====
-- The HTTP functions of packets.c. Offsets stand for pointers into a buffer; `none` is an access
-- outside of it, or a loop out of fuel. `char` comparisons are at ASCII bounds, where the
-- signedness of `char` makes no difference.
pub mod Scan
pub mod Safe
use byedpi.Prelude.{
  ℕ, zero, suc, ◌+◌, ◌-◌, ◌||◌, not, Bool, true, false, Option, none, some, List, [], ◌∷◌, Bytes,
  read, length, ltb, ◌==◌, ◌!=◌, if◌then◌else◌, ◌>>=◌,
}
use byedpi.Prelude.Int.{ℤ, pos, pos_part, ◌-ℤ◌, ltb_ℤ}
use byedpi.Prelude.Ctype.{codes, is_space, is_digit, memchr, starts_at, starts_fold_at, strtol10}

-- The loop of strncasestr from offset `at`; the text begins with the byte `c`.
unfoldable pub find_fold : ℕ → Bytes → ℕ → ℕ → Bytes → ℕ → Option (Option ℕ)
find_fold zero buf size c text at = none
find_fold (suc fuel) buf size c text at =
    let again = λ (p : ℕ). find_fold fuel buf size c text (p + 1) in
    do
      hit ← memchr buf at c (size - at)
      elim hit [
        | none ↦ some none
        | some p ↦
            if ltb size (p + length text)
            then some none
            else (do same ← starts_fold_at buf p text; if same then some (some p) else again p)
      ]

unfoldable pub strncasestr : Bytes → ℕ → ℕ → Bytes → Option (Option ℕ)
unfolding find_fold
strncasestr buf size c text = find_fold (suc size) buf size c text 0

abbrev pub methods : List Bytes
methods =
    codes "HEAD"
    ∷ codes "GET"
    ∷ codes "POST"
    ∷ codes "PUT"
    ∷ codes "DELETE"
    ∷ codes "OPTIONS"
    ∷ codes "CONNECT"
    ∷ codes "TRACE"
    ∷ codes "PATCH"
    ∷ []

unfoldable pub any_method : List Bytes → Bytes → Option Bool
any_method [] buf = some false
any_method (m ∷ ms) buf = do hit ← starts_at buf 0 m; if hit then some true else any_method ms buf

unfoldable pub is_http : Bytes → ℕ → Option Bool
unfolding any_method
is_http buf bsize = if ltb bsize 16 then some false else (do
  c ← read buf 0
  if ltb b'T' c || ltb c b'C' then some false else any_method methods buf)

-- for (; host < buff_end && *host == ' '; host++), over `count` bytes.
unfoldable pub skip_blanks : Bytes → ℕ → ℕ → Option ℕ
skip_blanks buf at zero = some at
skip_blanks buf at (suc count) = do
  c ← read buf at
  if c == b' ' then skip_blanks buf (at + 1) count else some at

-- for (; isspace(*(l_end - 1)); l_end--); a read in front of the buffer is a fault.
unfoldable pub trim_back : Bytes → ℕ → Option ℕ
unfolding is_space
trim_back buf zero = none
trim_back buf (suc e) = do c ← read buf e; if is_space c then trim_back buf e else some (suc e)

-- while (isdigit(*--h_end)), from `h_end` on.
unfoldable pub back_digits : Bytes → ℕ → Option ℕ
unfolding is_digit
back_digits buf zero = none
back_digits buf (suc e) = do c ← read buf e; if is_digit c then back_digits buf e else some e

-- What parse_http returns and leaves in `*hs` and `*port`; `none` where it does not write.
pub record Request : Type 0 where
  pub len : ℤ
  pub hs : Option ℕ
  pub port : Option ℕ

abbrev pub refused : Request
refused = record { len = pos 0; hs = none; port = none }

-- The end of parse_http: an address in brackets loses them.
unfoldable pub finish_host : Bytes → ℕ → ℕ → Option ℕ → Option Request
finish_host buf host zero port = do
  c ← read buf host
  if c == b'[' then none else some (record { len = pos 0 -ℤ pos host; hs = some host; port = port })
finish_host buf host (suc h_end) port = do
  c ← read buf host
  if c == b'['
      then (do
        d ← read buf h_end
        some (
            if d != b']'
            then record { len = pos 0; hs = none; port = port }
            else record { len = pos h_end -ℤ pos (host + 1); hs = some (host + 1); port = port }))
      else some (record { len = pos (suc h_end) -ℤ pos host; hs = some host; port = port })

-- The port behind the last colon, if the caller asked for it.
unfoldable pub split_port : Bool → Bytes → ℕ → ℕ → ℕ → Option Request
unfolding finish_host
split_port want buf host l_end h_end = do
  c ← read buf h_end
  if c != b':'
      then finish_host buf host l_end (if want then some 80 else none)
      else if want
      then (do
        (i, end) ← strtol10 buf (h_end + 1)
        if not (ltb_ℤ (pos 0) i) || end != l_end || ltb_ℤ (pos 0xffff) i
            then some refused
            else finish_host buf host h_end (some (pos_part i)))
      else finish_host buf host h_end none

-- The value of the Host header, from behind its blanks.
unfoldable pub parse_host_line : Bool → Bytes → ℕ → ℕ → Option Request
parse_host_line want buf bsize host = do
  nl ← memchr buf host 10 (bsize - host)
  elim nl [
    | none ↦ some refused
    | some e ↦ (do
      l_end ← trim_back buf e
      h_end ← back_digits buf (l_end - 1)
      split_port want buf host l_end h_end)
  ]

abbrev pub host_text : Bytes
host_text = 10 ∷ codes "Host:"

-- `want` tells whether `port` is not null.
unfoldable pub parse_http : Bool → Bytes → ℕ → Option Request
parse_http want buf bsize = do
  http ← is_http buf bsize
  if http
      then (do
        found ← strncasestr buf bsize 10 host_text
        elim found [
          | none ↦ some refused
          | some p ↦ (do
            host ← skip_blanks buf (p + 6) (bsize - (p + 6))
            parse_host_line want buf bsize host)
        ])
      else some refused
