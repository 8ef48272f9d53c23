-- ===== src/Options/Text.antt =====
-- parse_cform and data_from_str of main.c. sscanf is a parameter: the byte and the number of
-- characters that a format gives at a place of the text.
pub mod Bounds
pub mod Quote
use byedpi.Prelude.{
  ℕ, zero, suc, ◌+◌, ◌-◌, ◌≤◌, ◌<◌, ◌≡◌, ◌⊎◌, refl, sym, ap, ◌∙◌, inl, inr, Bool, true, false, ◌&&◌,
  ◌||◌, Option, none, some, List, [], ◌∷◌, ◌++◌, Bytes, arith, read, read-byte_at, byte_at, store,
  store-overwrite, overwrite, length-overwrite, length, replicate, length-replicate, take, ltb,
  ◌==◌, ◌!=◌, if◌then◌else◌, ◌>>=◌, if-cases, Returns,
}

-- A C string: what is in front of the first 0.
unfoldable pub c_str : Bytes → Bytes
c_str [] = []
c_str (c ∷ cs) = if c == 0 then [] else c ∷ c_str cs

-- What `\` and a letter mean.
unfoldable pub esca : ℕ → Option ℕ
esca c =
    if c == b'r'
    then some 13
    else if c == b'n'
    then some 10
    else if c == b't'
    then some 9
    else if c == 92
    then some 92
    else if c == b'f'
    then some 12
    else if c == b'b'
    then some 8
    else if c == b'v'
    then some 11
    else if c == b'a'
    then some 7
    else none

abbrev pub or_else {ℓ} : {A : Type ℓ} → Option A → Option A → Option A
or_else (some a) b = some a
or_else none b = b

-- sscanf with `x%2hhx%n` and with `%3hho%n`: the byte, and `n`.
pub record Scanf : Type 0 where
  pub hex : Bytes → ℕ → Option (ℕ × ℕ)
  pub oct : Bytes → ℕ → Option (ℕ × ℕ)

module _ (sc : Scanf) where
  -- What is written for the escape whose letter is at `p`, and the place behind it. What is no escape loses
  -- its backslash only.
  abbrev pub escape : Bytes → ℕ → Option ℕ → Option (Option ℕ × ℕ)
  escape str p (some b) = some (some b, p + 1)
  escape str p none = elim (or_else (sc.hex str p) (sc.oct str p)) [
    | some (b, n) ↦ some (some b, p + n)
    | none ↦ some (none, p)
  ]

  unfoldable pub cform_item : Bytes → ℕ → Option (Option ℕ × ℕ)
  unfolding esca
  cform_item str p = do
    c ← read str p
    if c != 92 then some (some c, p + 1) else (do d ← read str (p + 1); escape str (p + 1) (esca d))

  abbrev pub cform_put : Bytes → ℕ → Option ℕ → Option (Bytes × ℕ)
  cform_put buffer i none = some (buffer, i)
  cform_put buffer i (some b) = do buffer' ← store buffer i (b ∷ []); some (buffer', i + 1)

  -- The loop of parse_cform from `p` and `i` on; `fuel` bounds the rounds.
  unfoldable pub cform_loop : ℕ → Bytes → ℕ → Bytes → ℕ → ℕ → ℕ → Option (Bytes × ℕ)
  unfolding cform_item
  cform_loop zero buffer blen str slen p i = none
  cform_loop (suc fuel) buffer blen str slen p i =
      if ltb p slen && ltb i blen
      then (do
        (b, p') ← cform_item str p
        (buffer', i') ← cform_put buffer i b
        cform_loop fuel buffer' blen str slen p' i')
      else some (buffer, i)

  -- Each round passes a character.
  unfoldable pub parse_cform : Bytes → ℕ → Bytes → ℕ → Option (Bytes × ℕ)
  unfolding cform_loop
  parse_cform buffer blen str slen = cform_loop (suc slen) buffer blen str slen 0 0

  -- The text goes up to its first 0 or, where it has none, up to the one behind it: len is strlen. malloc
  -- and realloc succeed.
  unfoldable pub data_from_str : Bytes → Option (Option Bytes)
  unfolding parse_cform c_str
  data_from_str str =
      let text = c_str str in
      let len = length text in
      if len == 0 then some none else (do
        (d, i) ← parse_cform (replicate len 0) len (text ++ (0 ∷ [])) len
        some (if i == 0 then none else some (take i d)))
