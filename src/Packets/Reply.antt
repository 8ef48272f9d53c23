-- ===== src/Packets/Reply.antt =====
-- The tests of packets.c on the answer of a server, and mod_http, which rewrites a request.
use byedpi.Prelude.{
  ℕ, zero, suc, ◌+◌, ◌-◌, ◌||◌, not, Bool, true, false, Option, none, some, [], ◌∷◌, Bytes, read,
  store, memmove, length, replicate, ltb, leb, has, ◌==◌, ◌!=◌, if◌then◌else◌, ◌>>=◌,
}
use byedpi.Prelude.Int.{ℤ, pos, negsuc, ◌+ℤ◌, ◌-ℤ◌, ltb_ℤ, pos_part}
use byedpi.Prelude.Ctype.{
  codes, is_space, to_lower, to_upper, memchr, starts_at, same_bytes, strtol10,
}
use mathlib.Core.Option.{get_or}
use byedpi.Packets.Tls.{antohs_int, find_tls_ext_offset, is_tls_chello}
use byedpi.Packets.Edit.{offset, is_zero}
use byedpi.Packets.Sni.{as_size}
use byedpi.Packets.Http.{parse_http, strncasestr, trim_back}

unfoldable pub get_http_code : Bytes → ℕ → Option ℕ
get_http_code buf n = if ltb n 13 then some 0 else (do
  http ← starts_at buf 0 (codes "HTTP/1.")
  if not http then some 0 else (do
    nl ← memchr buf 12 10 (n - 12)
    elim nl [
      | none ↦ some 0
      | some _ ↦ (do
        (num, e) ← strtol10 buf 9
        c ← read buf e
        some (
            if ltb_ℤ num (pos 100) || ltb_ℤ (pos 511) num || not (is_space c)
            then 0
            else pos_part num))
    ]))

-- while (h != host && *(--h - 1) != '.')
unfoldable pub back_dot : Bytes → ℕ → ℕ → Option ℕ
back_dot buf host zero = if host == 0 then some 0 else none
back_dot buf host (suc zero) = if host == 1 then some 1 else none
back_dot buf host (suc (suc h)) =
    let again = λ (c : ℕ). if c != b'.' then back_dot buf host (suc h) else some (suc h) in
    if host == suc (suc h) then some (suc (suc h)) else (read buf h >>= again)

-- The scheme in front of the location is skipped.
unfoldable pub skip_scheme : Bytes → ℕ → ℕ → Option ℕ
skip_scheme resp location l_end =
    if ltb (location + 7) l_end
    then (do
      plain ← starts_at resp location (codes "http://")
      if plain then some (location + 7) else (do
        secure ← starts_at resp location (codes "https://")
        some (if secure then location + 8 else location)))
    else some location

-- The end of is_http_redirect: the host of the location against the last two labels of the host of
-- the request, which lies at `host` and ends at `he`.
unfoldable pub other_host : Bytes → ℕ → ℕ → Bytes → ℕ → ℕ → Option Bool
other_host req host he resp location l_end = do
  slash ← memchr resp location b'/' (as_size (pos l_end -ℤ pos location))
  let le = get_or slash l_end
  h1 ← back_dot req host he
  h ← back_dot req host h1
  let size = he - h
  if ltb_ℤ (pos le -ℤ pos location) (pos size)
      then some true
      else (do same ← same_bytes resp (le - size) req h size; some (not same))

unfoldable pub redirects : Bytes → ℕ → ℕ → Bytes → ℕ → Option Bool
redirects req host he resp sn = do
  code ← get_http_code resp sn
  if ltb 308 code || ltb code 300 then some false else (do
    found ← strncasestr resp sn 10 (10 ∷ codes "Location:")
    elim found [
      | none ↦ some false
      | some p ↦ if leb sn (p + 11 + 8) then some false else (do
        nl ← memchr resp (p + 11) 10 (sn - (p + 11))
        elim nl [
          | none ↦ some false
          | some e ↦ (do
            l_end ← trim_back resp e
            location ← skip_scheme resp (p + 11) l_end
            other_host req host he resp location l_end)
        ])
    ])

unfoldable pub is_http_redirect : Bytes → ℕ → Bytes → ℕ → Option Bool
is_http_redirect req qn resp sn = do
  r ← parse_http false req qn
  elim r.hs [
    | none ↦ some false
    | some host ↦
        if not (ltb_ℤ (pos 0) r.len) || ltb sn 29
        then some false
        else redirects req host (host + pos_part r.len) resp sn
  ]

unfoldable pub neq_tls_sid : Bytes → ℕ → Bytes → ℕ → Option Bool
neq_tls_sid req qn resp sn = if ltb qn 75 || ltb sn 75 then some false else (do
  hello ← is_tls_chello req qn
  kind ← antohs_int resp 0
  if not hello || kind != 0x1603 then some false else (do
    sid_len ← read req 43
    ext ← find_tls_ext_offset 0x2b resp sn (44 + sid_len + 3)
    other ← read resp 43
    if ext == 0
        then some false
        else if sid_len != other
        then some true
        else (do same ← same_bytes req 44 resp 44 sid_len; some (not same))))

-- for (par = host - 1; *par != ':'; par--), from `par + 1`.
unfoldable pub back_colon : Bytes → ℕ → Option ℕ
back_colon buf zero = none
back_colon buf (suc par) = do c ← read buf par; if c != b':' then back_colon buf par else some par

-- buf[at] = f(buf[at])
unfoldable pub change_at : (ℕ → ℕ) → Bytes → ℕ → Option Bytes
change_at f buf at = do c ← read buf at; store buf at (f c ∷ [])

-- Every other letter of the host, over `count` letters.
unfoldable pub mix_host : Bytes → ℕ → ℕ → Option Bytes
mix_host buf at zero = some buf
mix_host buf at (suc zero) = change_at to_upper buf at
mix_host buf at (suc (suc count)) = do b ← change_at to_upper buf at; mix_host b (at + 2) count

-- for (; !isspace(*(host + hlen)); hlen++), from the offset `host + hlen`.
unfoldable pub skip_text : ℕ → Bytes → ℕ → Option ℕ
skip_text zero buf at = none
skip_text (suc fuel) buf at = do
  c ← read buf at
  if not (is_space c) then skip_text fuel buf (at + 1) else some at

-- MH_SPACE: the host moves up to the colon, and tabs fill the room behind it.
unfoldable pub move_host : Bytes → ℕ → ℕ → ℤ → Option Bytes
move_host buf par host hlen = do
  start ← offset (pos host +ℤ hlen)
  end ← skip_text (suc (length buf)) buf start
  let size = pos end -ℤ pos host
  b ← memmove buf (par + 5) host (as_size size)
  at ← offset (pos (par + 5) +ℤ size)
  store b at (replicate (host - (par + 5)) 9)

abbrev pub mh_hmix : ℕ
mh_hmix = 1

abbrev pub mh_space : ℕ
mh_space = 2

abbrev pub mh_dmix : ℕ
mh_dmix = 4

-- MH_HMIX: `hoSt` for `Host`.
unfoldable pub mix_header : Bytes → ℕ → Option Bytes
mix_header buf par = do
  b ← change_at to_lower buf par
  b1 ← change_at to_upper b (par + 1)
  change_at to_upper b1 (par + 3)

unfoldable pub mod_http : Bytes → ℕ → ℕ → Option (ℤ × Bytes)
mod_http buf bsize m = do
  r ← parse_http false buf bsize
  elim r.hs [
    | none ↦ some (negsuc 0, buf)
    | some host ↦ if is_zero r.len then some (negsuc 0, buf) else (do
      colon ← back_colon buf host
      par ← offset (pos colon -ℤ pos 4)
      b ← if has m mh_hmix then mix_header buf par else some buf
      b1 ← if has m mh_dmix then mix_host b host (pos_part r.len) else some b
      b2 ← if has m mh_space then move_host b1 par host r.len else some b1
      some (pos 0, b2))
  ]
