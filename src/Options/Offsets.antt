-- ===== src/Options/Offsets.antt =====
-- parse_offset of main.c. A text is read up to the 0 behind it; strtol with the base 0 is a parameter.
pub mod Parsed
use byedpi.Prelude.{
  ℕ, zero, suc, ◌+◌, ◌-◌, ◌*◌, ◌^◌, ◌&&◌, ◌||◌, not, Bool, true, false, Option, none, some, List,
  [], ◌∷◌, Bytes, read, load, length, bit_or, ltb, leb, ◌==◌, ◌!=◌, if◌then◌else◌, ◌>>=◌,
}
use byedpi.Prelude.Int.{ℤ, pos, negsuc}
use byedpi.Prelude.Ctype.{codes, is_digit, memchr, starts_at}
use byedpi.Net.{Addr, Family, htons}
use byedpi.Desync.Offset.{
  Part, offset_end, offset_mid, offset_rand, offset_sni, offset_host, offset_start,
}

-- strtol(text + at, &end, 0): the number and `end`.
pub record Strtol : Type 0 where
  pub scan : Bytes → ℕ → ℤ × ℕ

abbrev pub int_max : ℕ
int_max = 2 ^ 31 - 1

-- One number behind a `:`, in the range that is asked for.
abbrev pub in_range : ℤ → Option ℕ
in_range (negsuc k) = none
in_range (pos n) = if ltb int_max n then none else some n

-- The letter behind `+`.
abbrev pub base_flag : ℕ → ℕ → Option ℕ
base_flag c flag =
    if c == b's'
    then some offset_sni
    else if c == b'h'
    then some offset_host
    else if c == b'n'
    then some flag
    else none

-- And the one behind that.
abbrev pub more_flag : ℕ → ℕ → ℕ
more_flag c flag =
    if c == b'e'
    then bit_or flag offset_end
    else if c == b'm'
    then bit_or flag offset_mid
    else if c == b'r'
    then bit_or flag offset_rand
    else if c == b's'
    then bit_or flag offset_start
    else flag

-- Behind the numbers: the part, or none for -1.
unfoldable pub parse_flags : Bytes → Part → ℤ → ℕ → Option (Option Part)
parse_flags str p val end = do
  c ← read str end
  if c == b'+'
      then (do
        base ← read str (end + 1)
        elim (base_flag base p.flag) [
          | none ↦ some none
          | some flag ↦ (do
            more ← read str (end + 2)
            some (some (record p { flag = more_flag more flag; at = val })))
        ])
      else if c == 0
      then some (some (record p { at = val }))
      else some none

module _ (st : Strtol) where
  -- What a number behind `:` does in the loop: r is set first, and s ends the loop.
  abbrev pub counted : Part → Option ℕ → ℕ → Option (Bool × Part × ℕ)
  counted p none end = none
  counted p (some rs) end =
      if p.r == 0
      then if rs == 0 then none else some (true, record p { r = rs }, end)
      else some (false, record p { s = rs }, end)

  -- while (*end == ':'), with at most `rounds` passes.
  unfoldable pub colon_loop : ℕ → Bytes → Part → ℕ → Option (Option (Part × ℕ))
  colon_loop zero str p end = none
  colon_loop (suc rounds) str p end = do
    c ← read str end
    let next = st.scan str (end + 1)
    if c == b':'
        then elim (counted p (in_range next.0) next.1) [
          | none ↦ some none
          | some (again, p', end') ↦ elim again [
            | true ↦ colon_loop rounds str p' end'
            | false ↦ some (some (p', end'))
          ]
        ]
        else some (some (p, end))

  -- Three passes are enough. The part is left as it was on -1, where the caller gives up.
  unfoldable pub parse_offset : Bytes → Part → Option (Option Part)
  unfolding colon_loop parse_flags
  parse_offset str p =
      let first = st.scan str 0 in
      do
        r ← colon_loop 3 str p first.1
        elim r [ none ↦ some none | some (p', end) ↦ parse_flags str p' first.0 end ]
