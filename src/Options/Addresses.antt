-- ===== src/Options/Addresses.antt =====
-- parse_ip and parse_ipset of main.c. inet_pton is a parameter, for both families.
pub mod Fit
use byedpi.Prelude.{
  ℕ, zero, suc, ◌+◌, ◌-◌, ◌*◌, ◌/◌, ◌%◌, ◌||◌, Bool, true, false, Option, none, some, List, [], ◌∷◌,
  ◌++◌, Bytes, read, store, load, take, length, ltb, leb, ◌==◌, ◌!=◌, if◌then◌else◌, ◌>>=◌,
}
use byedpi.Prelude.Int.{ℤ, pos, negsuc}
use byedpi.Prelude.Ctype.{memchr, strtol10}
use byedpi.Mpool.{Elem}
use byedpi.Options.Hosts.{is_break}
use byedpi.Options.Text.{c_str}

-- The bytes of an address, for a text up to its end.
pub record InetPton : Type 0 where
  pub inet4 : Bytes → Option Bytes
  pub inet6 : Bytes → Option Bytes

-- The bits that are returned, and what is written to `out`.
abbrev pub whole_or : ℕ → ℕ → Bytes → ℕ × Bytes
whole_or bits len out = (if bits == 0 || ltb (len * 8) bits then len * 8 else bits, out)

module _ (ip : InetPton) where
  abbrev pub addressed_by : ℕ → Option Bytes → Option Bytes → ℕ × Bytes
  addressed_by bits (some a) b = whole_or bits 4 a
  addressed_by bits none (some b) = whole_or bits 16 b
  addressed_by bits none none = (0, [])

  unfoldable pub read_ip : Bytes → ℕ → ℕ × Bytes
  unfolding c_str
  read_ip str bits = addressed_by bits (ip.inet4 (c_str str)) (ip.inet6 (c_str str))

  -- A number behind `/` that is not positive gives 0.
  abbrev pub cut_at : Bytes → Option ℕ → Option (ℕ × Bytes)
  cut_at str none = some (read_ip str 0)
  cut_at str (some i) = do
    (bits, end) ← strtol10 str (i + 1)
    str' ← store str i (0 ∷ [])
    some (elim bits [ negsuc k ↦ (0, []) | pos n ↦ if n == 0 then (0, []) else read_ip str' n ])

  unfoldable pub parse_ip : Bytes → ℕ → Option (ℕ × Bytes)
  unfolding read_ip
  parse_ip str size = do sep ← memchr str 0 b'/' size; cut_at str sep

  -- The element that mem_add is given: `bits` of the address, in as few bytes as hold them.
  abbrev pub elem_of : ℕ × Bytes → List Elem
  elem_of (bits, out) =
      if bits == 0
      then []
      else record { len = bits; body = take (bits / 8 + (if bits % 8 != 0 then 1 else 0)) out } ∷ []

  abbrev pub end_ip : Bytes → ℕ → ℕ → (ℕ → Option (List Elem)) → Option (List Elem)
  end_ip buffer s e again = if s == e then again (s + 1) else (do
    text ← load buffer s (e - s)
    r ← parse_ip (text ++ (0 ∷ [])) (e - s + 1)
    rest ← again (e + 1)
    some (elem_of r ++ rest))

  -- The loop from `e` on, with `left` bytes before `end`. mem_add succeeds.
  unfoldable pub ipset_loop : ℕ → Bytes → ℕ → ℕ → Option (List Elem)
  unfolding parse_ip is_break
  ipset_loop zero buffer s e = end_ip buffer s e (λ s. some [])
  ipset_loop (suc left) buffer s e = do
    c ← read buffer e
    if is_break c
        then end_ip buffer s e (λ s. ipset_loop left buffer s (e + 1))
        else ipset_loop left buffer s (e + 1)

  unfoldable pub parse_ipset : Bytes → ℕ → Option (List Elem)
  unfolding ipset_loop
  parse_ipset buffer size = ipset_loop size buffer 0 0
