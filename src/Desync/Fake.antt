-- ===== src/Desync/Fake.antt =====
-- The packet that is sent in place of a part: get_tcp_fake of desync.c. `none` is an access outside
-- an object, or a loop out of fuel.
use byedpi.Prelude.{
  ℕ, ◌%◌, ◌||◌, ◌&&◌, not, Bool, true, false, Option, none, some, List, [], ◌∷◌, Bytes, store,
  length, take, replicate, get_elem?, ltb, has, if◌then◌else◌, ◌>>=◌,
}
use byedpi.Prelude.Int.{ℤ, pos, pos_part, ◌+ℤ◌, ltb_ℤ}
use byedpi.Packets.Tls.{is_tls_chello}
use byedpi.Packets.Http.{is_http}
use byedpi.Packets.Edit.{Stream, is_zero}
use byedpi.Packets.Sni.{change_tls_sni, randomize_tls}
use byedpi.Desync.Offset.{Proto, unknown, http, https, is_https, Info, is_negative, gen_offset}

-- struct desync_params, as far as get_tcp_fake reads it; `fake_offset` is none where its `m` is 0.
-- Both default packets are here too.
pub record FakeParams : Type 0 where
  pub fake_data : Option Bytes
  pub fake_http : Bytes
  pub fake_tls : Bytes
  pub fake_offset : Option (ℤ × ℕ)
  pub fake_sni_list : List Bytes
  pub fake_mod : ℕ
  pub fake_tls_size : ℤ

abbrev pub fm_rand : ℕ
fm_rand = 1

abbrev pub fm_orig : ℕ
fm_orig = 2

-- struct packet.
pub record Packet : Type 0 where
  pub bytes : Bytes
  pub off : ℕ

abbrev is_unknown : Proto → Bool
is_unknown unknown = true
is_unknown _ = false

unfoldable pub detect_type : Bytes → ℕ → Info → Option Info
detect_type buf n info =
    if is_unknown info.type
    then (do
      hello ← is_tls_chello buf n
      if hello
          then some (record info { type = https })
          else (do web ← is_http buf n; some (if web then record info { type = http } else info)))
    else some info

abbrev default_packet : FakeParams → Proto → Bytes
default_packet opt http = opt.fake_http
default_packet opt _ = opt.fake_tls

unfoldable pub choose_packet : FakeParams → Bytes → ℕ → Info → Option (Bytes × Info)
choose_packet opt buf n info = elim opt.fake_data [
  | some d ↦ some (d, info)
  | none ↦ (do seen ← detect_type buf n info; some (default_packet opt seen.type, seen))
]

-- One result of rand() picks the name.
abbrev pub pick_sni : Stream → List Bytes → Option Bytes
pick_sni rnd [] = none
pick_sni rnd (x ∷ xs) = get_elem? (x ∷ xs) (rnd 0 % length (x ∷ xs))

unfoldable pub fake_size : ℤ → ℕ → ℤ
fake_size size n =
    let f = if is_negative size then pos n +ℤ size else size in
    if ltb_ℤ (pos n) f || is_negative f || is_zero f then pos n else f

-- The copy of the packet, with the name put in where there is one.
unfoldable pub copy_packet : ℕ → Stream → Option Bytes → Bytes → Bytes → ℤ → Option Bytes
copy_packet fuel rnd none p raw f_size = store p 0 raw
copy_packet fuel rnd (some sni) p raw f_size = do
  copied ← store p 0 raw
  (r, b) ← change_tls_sni fuel rnd sni copied (length raw) f_size
  some b

-- The copy of the request; `none` inside where the name could not be put in.
unfoldable pub copy_request :
    ℕ → Stream → Option Bytes → Bytes → Bytes → ℕ → ℤ → Option (Bool × Bytes)
copy_request fuel rnd none p buf n f_size = do copied ← store p 0 (take n buf); some (true, copied)
copy_request fuel rnd (some sni) p buf n f_size = do
  copied ← store p 0 (take n buf)
  (r, b) ← change_tls_sni fuel rnd sni copied n f_size
  some (is_zero r, b)

-- do { ... } while (0); `rnd` has a stream for each function that draws.
unfoldable pub fill_packet :
    ℕ → (ℕ → Stream) → FakeParams → Proto → Option Bytes → Bytes → Bytes → Bytes → ℕ → Option Bytes
fill_packet fuel rnd opt type sni p raw buf n =
    let f_size = fake_size opt.fake_tls_size n in
    if has opt.fake_mod fm_orig && is_https type
    then (do
      (ok, b) ← copy_request fuel (rnd 1) sni p buf n f_size
      if ok then some b else copy_packet fuel (rnd 2) sni b raw f_size)
    else copy_packet fuel (rnd 2) sni p raw f_size

unfoldable pub fake_off : Stream → Option (ℤ × ℕ) → Bytes → ℕ → ℕ → Info → Option (ℕ × Info)
fake_off rnd none buf n ps info = some (0, info)
fake_off rnd (some (at, flag)) buf n ps info = do
  (off, seen, rnd') ← gen_offset rnd at flag buf n 0 info
  some (if ltb_ℤ (pos ps) off || is_negative off then 0 else pos_part off, seen)

-- The packet is none where mmap failed, which is what `mapped` tells.
unfoldable pub get_tcp_fake :
    ℕ → (ℕ → Stream) → FakeParams → Bool → Bytes → ℕ → Info → Option (Option Packet × Info)
get_tcp_fake fuel rnd opt mapped buf n info = do
  (raw, seen) ← choose_packet opt buf n info
  let ps = if ltb (length raw) n then n else length raw
  if not mapped then some (none, seen) else (do
    p ←
        fill_packet fuel rnd opt seen.type (pick_sni (rnd 0) opt.fake_sni_list) (replicate ps 0) raw
          buf n
    p1 ← if has opt.fake_mod fm_rand then randomize_tls (rnd 3) p ps else some p
    (off, last) ← fake_off (rnd 4) opt.fake_offset buf n ps seen
    some (some (record { bytes = p1; off = off }), last))
