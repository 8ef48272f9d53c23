-- ===== src/Prelude/Word.antt =====
-- A 64-bit mask xs its bits, lowest first. Both operands of an operation have one length.
use mathlib.Core.Path.{◌≡◌, refl}
use mathlib.Core.Bool.{Bool, true, false, ◌&&◌, ◌||◌, not}
use mathlib.Core.List.{List, [], ◌∷◌}
use native.Mathlib.Omega.{arith}
use byedpi.Prelude.Tests.{if◌then◌else◌}

abbrev pub Word : Type 0
Word = List Bool

-- a | b
unfoldable pub or_word : Word → Word → Word
or_word (a ∷ xs) (b ∷ ys) = (a || b) ∷ or_word xs ys
or_word [] ys = []
or_word (a ∷ xs) [] = a ∷ xs

-- (a & b) != 0
unfoldable pub meets : Word → Word → Bool
meets (a ∷ xs) (b ∷ ys) = (a && b) || meets xs ys
meets [] ys = false
meets (a ∷ xs) [] = false

-- a == b
unfoldable pub same_word : Word → Word → Bool
same_word [] [] = true
same_word (a ∷ xs) (b ∷ ys) = (if a then b else not b) && same_word xs ys
same_word [] (b ∷ ys) = false
same_word (a ∷ xs) [] = false

-- a == 0
unfoldable pub is_empty : Word → Bool
is_empty [] = true
is_empty (a ∷ xs) = not a && is_empty xs

-- a & ~b
unfoldable pub without : Word → Word → Word
without (a ∷ xs) (b ∷ ys) = (a && not b) ∷ without xs ys
without [] ys = []
without (a ∷ xs) [] = a ∷ xs

-- Every bit of `a` is a bit of `b`, in words of one length.
abbrev pub Within : Word → Word → Type 0
Within [] [] = Unit
Within (a ∷ xs) (b ∷ ys) = (a ≡ true → b ≡ true) × Within xs ys
Within [] (b ∷ ys) = ⊥
Within (a ∷ xs) [] = ⊥

pub Within-refl : (a : Word) → Within a a
Within-refl [] = tt
Within-refl (a ∷ xs) = ((λ e. e), Within-refl xs)

pub Within-trans : (a b c : Word) → Within a b → Within b c → Within a c
Within-trans [] [] [] h k = tt
Within-trans (a ∷ xs) (b ∷ ys) (c ∷ zs) h k = ((λ e. k.0 (h.0 e)), Within-trans xs ys zs h.1 k.1)
Within-trans [] [] (c ∷ zs) h k = absurd k
Within-trans [] (b ∷ ys) c h k = absurd h
Within-trans (a ∷ xs) [] c h k = absurd h
Within-trans (a ∷ xs) (b ∷ ys) [] h k = absurd k

-- What the union of two words of one length contains.
pub or_word-Within : (a b c : Word) → Within a c → Within b c → Within (or_word a b) c
unfolding or_word
or_word-Within [] [] [] h k = tt
or_word-Within (a ∷ xs) (b ∷ ys) (c ∷ zs) h k =
    (ground (arith, h.0, k.0), or_word-Within xs ys zs h.1 k.1)
or_word-Within [] b (c ∷ zs) h k = absurd h
or_word-Within (a ∷ xs) b [] h k = absurd h
or_word-Within [] (b ∷ ys) [] h k = absurd k
or_word-Within (a ∷ xs) [] (c ∷ zs) h k = absurd k

pub Within-or_left : (a b c : Word) → Within a c → Within b c → Within a (or_word a b)
unfolding or_word
Within-or_left [] [] [] h k = tt
Within-or_left (a ∷ xs) (b ∷ ys) (c ∷ zs) h k = (ground arith, Within-or_left xs ys zs h.1 k.1)
Within-or_left [] b (c ∷ zs) h k = absurd h
Within-or_left (a ∷ xs) b [] h k = absurd h
Within-or_left [] (b ∷ ys) [] h k = absurd k
Within-or_left (a ∷ xs) [] (c ∷ zs) h k = absurd k

pub Within-or_right : (a b c : Word) → Within a c → Within b c → Within b (or_word a b)
unfolding or_word
Within-or_right [] [] [] h k = tt
Within-or_right (a ∷ xs) (b ∷ ys) (c ∷ zs) h k = (ground arith, Within-or_right xs ys zs h.1 k.1)
Within-or_right [] b (c ∷ zs) h k = absurd h
Within-or_right (a ∷ xs) b [] h k = absurd h
Within-or_right [] (b ∷ ys) [] h k = absurd k
Within-or_right (a ∷ xs) [] (c ∷ zs) h k = absurd k

-- Two words that contain one another are the same.
pub same_word-Within : (a b : Word) → Within a b → Within b a → same_word a b ≡ true
unfolding same_word
same_word-Within [] [] h k = refl
same_word-Within (a ∷ xs) (b ∷ ys) h k = ground (arith, h.0, k.0, same_word-Within xs ys h.1 k.1)
same_word-Within [] (b ∷ ys) h k = absurd h
same_word-Within (a ∷ xs) [] h k = absurd h

-- A word that meets `a` meets every word that contains `a`.
pub meets-Within : (g a b : Word) → Within a b → meets g b ≡ false → meets g a ≡ false
unfolding meets
meets-Within [] a b h e = refl
meets-Within (x ∷ g) [] b h e = refl
meets-Within (x ∷ g) (a ∷ xs) [] h e = absurd h
meets-Within (x ∷ g) (a ∷ xs) (b ∷ ys) h e = ground (arith, h.0, meets-Within g xs ys h.1)
