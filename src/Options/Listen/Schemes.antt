-- ===== src/Options/Listen/Schemes.antt =====
-- get_addr_scheme of main.c, as it is built on Linux.
use byedpi.Prelude.{
  ℕ, ◌≡◌, ◌⊎◌, Bool, true, false, Option, none, some, List, [], ◌∷◌, take, drop, Bytes, length,
  ◌==◌, if◌then◌else◌, ◌>>=◌,
}
use byedpi.Prelude.Ctype.{codes, starts_at}
use byedpi.Net.{Addr}
use byedpi.Options.Offsets.{Strtol}
use byedpi.Options.Listen.{Numeric, get_addr}
use byedpi.Options.Listen.Answers.{Answers}

-- `schemes` and `scheme_int`.
abbrev pub schemes : List (Bytes × ℕ)
schemes =
    (codes "socks4://", 2)
    ∷ (codes "socks5://", 1)
    ∷ (codes "socks://", 3)
    ∷ (codes "ss://", 16)
    ∷ (codes "http://", 4)
    ∷ (codes "sni://", 32)
    ∷ (codes "tcp://", 64)
    ∷ (codes "red://", 8)
    ∷ []

-- The mode and the length of the scheme in front.
unfoldable pub scheme_loop : List (Bytes × ℕ) → Bytes → Option (ℕ × ℕ)
scheme_loop [] str = some (0, 0)
scheme_loop ((text, mode) ∷ rest) str = do
  b ← starts_at str 0 text
  if b then some (mode, length text) else scheme_loop rest str

unfoldable pub get_addr_scheme : Strtol → Numeric → Bytes → Addr → Option (Option (ℕ × Addr))
get_addr_scheme st net str addr = do
  (mode, s_len) ← scheme_loop schemes str
  r ← get_addr st net (drop s_len str) addr
  some (elim r [ none ↦ none | some a ↦ some (mode, a) ])

-- Texts without a 0.
unfoldable plain : Bytes → Bool
plain [] = true
plain (c ∷ cs) = if c == 0 then false else plain cs

unfoldable all_plain : List (Bytes × ℕ) → Bool
unfolding plain
all_plain [] = true
all_plain ((text, mode) ∷ rest) = if plain text then all_plain rest else false

-- One of the schemes in front of the text with its mode, or no scheme and the mode 0.
abbrev pub Schemed : List (Bytes × ℕ) → Bytes → ℕ → ℕ → Type 0
Schemed [] str mode n = (mode ≡ 0) × (n ≡ 0)
Schemed ((text, m) ∷ rest) str mode n =
    ((take n str ≡ text) × (n ≡ length text) × (mode ≡ m)) ⊎ Schemed rest str mode n

abbrev pub Listens : Strtol → Numeric → Bytes → Addr → Option (ℕ × Addr) → Type 0
Listens st net str addr none = Unit
Listens st net str addr (some (mode, a)) =
    (n : ℕ) × Schemed schemes str mode n × Answers st net (drop n str) addr (some a)
