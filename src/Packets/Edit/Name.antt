-- ===== src/Packets/Edit/Name.antt =====
-- The names that copy_name writes in place of a pattern.
use byedpi.Prelude.{ℕ, ◌≤◌, ◌≡◌, ◌⊎◌, [], ◌∷◌, arith, Bytes, ◌==◌, if◌then◌else◌}
use byedpi.Packets.Edit.{Stream, later, is_wild, fill_char, fill_name}

-- What the character `c` of a pattern may become.
abbrev pub Fits : ℕ → ℕ → Type 0
Fits c out =
    if c == b'*'
    then ((b'0' ≤ out) × (out ≤ b'9')) ⊎ ((b'a' ≤ out) × (out ≤ b'z'))
    else if c == b'?'
    then (b'a' ≤ out) × (out ≤ b'z')
    else if c == b'#'
    then (b'0' ≤ out) × (out ≤ b'9')
    else out ≡ c

pub data Matches : Bytes → Bytes → Type 0 where
  end : Matches [] []
  next :
      {c out : ℕ} {cs outs : Bytes} → Fits c out → Matches cs outs → Matches (c ∷ cs) (out ∷ outs)

fill_char-Fits : (c r : ℕ) → Fits c (fill_char c r)
unfolding fill_char
fill_char-Fits c r = ground arith

-- Whatever rand() returns, the name that is written has the length of the pattern, and fits it: a
-- digit for '#', a small letter for '?', one of the two for '*', and the character itself else.
pub fill_name-Matches : (rnd : Stream) (name : Bytes) → Matches name (fill_name rnd name).0
unfolding fill_name
fill_name-Matches rnd [] = end
fill_name-Matches rnd (c ∷ cs) =
    next (fill_char-Fits c (rnd 0)) (fill_name-Matches (later rnd (if is_wild c then 1 else 0)) cs)
