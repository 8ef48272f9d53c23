-- ===== src/Options/Hosts.antt =====
-- lower_char and parse_hosts of main.c: the names of a list, each made small where it stands.
pub mod Words
use byedpi.Prelude.{
  ℕ, zero, suc, ◌+◌, ◌-◌, ◌&&◌, ◌||◌, Bool, true, false, Option, none, some, List, [], ◌∷◌, ◌++◌,
  Bytes, read, overwrite, store, load, length, ltb, ◌==◌, ◌!=◌, if◌then◌else◌, ◌>>=◌,
}

-- The byte after the call, and whether it is refused. A signed `char` above 127 is below '-'.
unfoldable pub lower_char : ℕ → ℕ × Bool
lower_char c =
    if ltb c b'A' || ltb 127 c
    then (c, ltb b'9' c || ltb c b'-')
    else if ltb c b'a'
    then (if ltb b'Z' c then (c, true) else (c + 32, false))
    else (c, ltb b'z' c)

unfoldable pub is_break : ℕ → Bool
is_break c = c == 32 || c == 10 || c == 13

-- What mem_add is given: the bytes from `s` to `e`, unless the name is dropped.
unfoldable pub add_name : Bytes → ℕ → ℕ → Bool → Option (List Bytes)
add_name buffer s e drop =
    if drop then some [] else (do name ← load buffer s (e - s); some (name ∷ []))

-- A name ends at `e`: the names that follow it come behind it.
abbrev pub end_name :
    Bytes → ℕ → ℕ → Bool → (ℕ → Bool → Option (Bytes × List Bytes)) → Option (Bytes × List Bytes)
end_name buffer s e drop again = if s == e then again (s + 1) drop else (do
  name ← add_name buffer s e drop
  (b, names) ← again (e + 1) false
  some (b, name ++ names))

-- The loop from `e` on, with `left` bytes before `end`. mem_add succeeds.
unfoldable pub hosts_loop : ℕ → Bytes → ℕ → ℕ → Bool → Option (Bytes × List Bytes)
unfolding add_name lower_char is_break
hosts_loop zero buffer s e drop = end_name buffer s e drop (λ s drop. some (buffer, []))
hosts_loop (suc left) buffer s e drop = do
  c ← read buffer e
  if is_break c
      then end_name buffer s e drop (λ s drop. hosts_loop left buffer s (e + 1) drop)
      else (do
        buffer' ← store buffer e ((lower_char c).0 ∷ [])
        hosts_loop left buffer' s (e + 1) (drop || (lower_char c).1))

-- The buffer afterwards, and the names that went to mem_add.
unfoldable pub parse_hosts : Bytes → ℕ → Option (Bytes × List Bytes)
unfolding hosts_loop
parse_hosts buffer size = hosts_loop size buffer 0 0 false
