-- ===== src/Options/Masks.antt =====
-- The bits of the groups in add_group of main.c. `1 << id` is a shift of an `int` of 32 bits, which is
-- widened to 64 bits with its sign; from 32 on the shift has no value.
pub mod Fresh
use byedpi.Prelude.{
  ℕ, zero, suc, ◌+◌, ◌-◌, Bool, true, false, Option, none, some, List, [], ◌∷◌, ltb, leb, ◌==◌,
  if◌then◌else◌, ◌>>=◌, replicate,
}
use byedpi.Prelude.Word.{Word, or_word}

-- A word by its bits from `k` on.
unfoldable pub tabulate : ℕ → ℕ → (ℕ → Bool) → Word
tabulate k zero f = []
tabulate k (suc n) f = f k ∷ tabulate (k + 1) n f

unfoldable pub shift_one : ℕ → Option Word
shift_one id =
    if ltb id 31
    then some (tabulate 0 64 (λ i. i == id))
    else if id == 31
    then some (tabulate 0 64 (λ i. leb 31 i))
    else none

-- struct params, as far as add_group changes it, and the bits of the groups, the newest first.
pub record Params : Type 0 where
  pub dp_n : ℕ
  pub dp_full_mask : Word
  pub bits : List Word

abbrev pub no_groups : Params
no_groups = record { dp_n = 0; dp_full_mask = replicate 64 false; bits = [] }

unfoldable pub add_group : Params → Option Params
unfolding shift_one
add_group p = do
  bit ← shift_one p.dp_n
  some
      (record { dp_n = p.dp_n + 1; dp_full_mask = or_word p.dp_full_mask bit; bits = bit ∷ p.bits })

-- Some groups, one after another.
unfoldable pub add_groups : ℕ → Params → Option Params
unfolding add_group
add_groups zero p = some p
add_groups (suc n) p = do p' ← add_groups n p; add_group p'
