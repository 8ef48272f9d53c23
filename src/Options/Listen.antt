-- ===== src/Options/Listen.antt =====
-- get_addr of main.c. strtol and getaddrinfo are parameters.
pub mod Scan
pub mod Answers
pub mod Schemes
use byedpi.Prelude.{
  ℕ, zero, suc, ◌+◌, ◌-◌, ◌||◌, Bool, true, false, Option, none, some, Bytes, read, load, length,
  ltb, ◌==◌, ◌!=◌, if◌then◌else◌, ◌>>=◌,
}
use byedpi.Prelude.Int.{ℤ, pos, negsuc}
use byedpi.Prelude.Ctype.{is_digit}
use byedpi.Net.{Addr, Family, inet, inet6, htons}
use byedpi.Options.Offsets.{Strtol}

-- getaddrinfo with AI_NUMERICHOST: the family and the address of a text.
pub record Numeric : Type 0 where
  pub lookup : Bytes → Option (Family × Bytes)

-- strchr(str + at, c), for a c that is not 0.
unfoldable pub strchr : ℕ → Bytes → ℕ → ℕ → Option (Option ℕ)
strchr zero str at c = none
strchr (suc fuel) str at c = do
  b ← read str at
  if b == c then some (some at) else if b == 0 then some none else strchr fuel str (at + 1) c

-- strchr(str, 0) - str.
unfoldable pub str_end : ℕ → Bytes → ℕ → Option ℕ
str_end zero str at = none
str_end (suc fuel) str at = do
  b ← read str at
  if b == 0 then some at else str_end fuel str (at + 1)

-- e, s and p behind a `[`, or none for -1.
abbrev pub bracket : Option ℕ → Option (Option ℕ × ℕ × ℕ)
bracket none = none
bracket (some e) = some (some e, 1, e + 1)

unfoldable pub opening : Bytes → Option (Option (Option ℕ × ℕ × ℕ))
opening str = do
  c ← read str 0
  if c == b'['
      then (do e ← strchr (length str) str 0 b']'; some (bracket e))
      else some (some (none, 0, 0))

abbrev pub or_at : Option ℕ → ℕ → Option ℕ
or_at none p = some p
or_at (some e) p = some e

-- The number behind `:`, in network order, or none for -1.
unfoldable pub port_number : Bytes → ℤ × ℕ → Option (Option ℕ)
port_number str (negsuc k, end) = some none
port_number str (pos n, end) =
    if n == 0 || ltb 65535 n
    then some none
    else (do c ← read str end; some (if c != 0 then none else some (htons n)))

abbrev pub given_addr : Addr → Family × Bytes → Addr
given_addr addr (inet, ip) = record addr { family = inet; v4 = ip }
given_addr addr (inet6, ip) = record addr { family = inet6; v6 = ip }

abbrev pub ported_addr : ℕ → Addr → Addr
ported_addr port addr = if port == 0 then addr else record addr { port = port }

abbrev pub end_of : Bytes → Option ℕ → Option ℕ
end_of str none = str_end (length str) str 0
end_of str (some e) = some e

-- e and the port.
unfoldable pub closing : Strtol → Bytes → Option ℕ → Option ℕ → Option (Option (Option ℕ × ℕ))
closing st str e none = some (some (e, 0))
closing st str e (some p) = do
  d ← read str (p + 1)
  if is_digit d
      then (do
        port ← port_number str (st.scan str (p + 1))
        some (elim port [ none ↦ none | some n ↦ some (or_at e p, n) ]))
      else some (some (e, 0))

abbrev pub looked_up : Numeric → Bytes → Addr → ℕ → ℕ → Option (Option Addr)
looked_up net str addr s e = if e == s then some (some addr) else (do
  text ← load str s (e - s)
  some (elim (net.lookup text) [ none ↦ none | some ip ↦ some (given_addr addr ip) ]))

module _ (st : Strtol) (net : Numeric) where
  -- e is known, or the text ends it.
  abbrev pub named : Bytes → Addr → ℕ → Option (Option ℕ × ℕ) → Option (Option Addr)
  named str addr s none = some none
  named str addr s (some (e, port)) = do
    end ← end_of str e
    r ← looked_up net str addr s end
    some (elim r [ none ↦ none | some a ↦ some (ported_addr port a) ])

  unfoldable pub get_addr : Bytes → Addr → Option (Option Addr)
  get_addr str addr = do
    o ← opening str
    elim o [
      | none ↦ some none
      | some (e, s, p) ↦ (do
        colon ← strchr (length str) str p b':'
        c ← closing st str e colon
        named str addr s c)
    ]
