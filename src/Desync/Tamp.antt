-- ===== src/Desync/Tamp.antt =====
-- tamp of desync.c: the changes to a first request before it is sent.
use byedpi.Prelude.{
  ℕ, ◌+◌, ◌-◌, ◌*◌, ◌||◌, Option, none, some, List, [], ◌∷◌, ◌++◌, Bytes, store, drop, take, ◌==◌,
  ◌!=◌, if◌then◌else◌, ◌>>=◌,
}
use byedpi.Prelude.Int.{ℤ, pos, pos_part, ◌+ℤ◌, ◌-ℤ◌, ltb_ℤ}
use byedpi.Packets.Tls.{is_tls_chello}
use byedpi.Packets.Http.{is_http}
use byedpi.Packets.Record.{part_tls}
use byedpi.Packets.Reply.{mod_http}
use byedpi.Packets.Edit.{Stream}
use byedpi.Desync.Offset.{Part, passes, Info, is_negative, gen_offset}

-- struct desync_params, as far as tamp reads it; `tlsminor` is none where it is not set.
pub record TampParams : Type 0 where
  pub mod_http : ℕ
  pub tlsminor : Option ℕ
  pub tlsrec : List Part

-- The position of a cut, from the offset that gen_offset gave.
unfoldable pub record_pos : Part → ℕ → ℕ → ℤ → ℤ
record_pos part d rc off =
    let p = pos (rc * 5) +ℤ off in
    (if is_negative part.at || part.flag != 0 then p -ℤ pos 5 else p) +ℤ pos (part.s * d)

unfoldable pub record_loop :
    List (Part × ℕ) → ℕ → ℕ → Stream → Bytes → ℕ → ℕ → Info → Option (Bytes × ℕ × Info × Stream)
record_loop [] rc lp rnd buf bfsize n info = some (buf, n, info, rnd)
record_loop ((part, d) ∷ more) rc lp rnd buf bfsize n info = do
  (off, seen, rnd') ← gen_offset rnd part.at part.flag buf (n - rc * 5) lp info
  let p = record_pos part d rc off
  if ltb_ℤ p (pos lp) then some (buf, n, seen, rnd') else (do
    (r, b) ← part_tls (drop lp buf) (bfsize - lp) (n - lp) (p -ℤ pos lp)
    let cut = take lp buf ++ b
    if r == 0
        then some (cut, n, seen, rnd')
        else record_loop more (rc + 1) (pos_part p + 5) rnd' cut bfsize (n + 5) seen)

unfoldable pub tamp_http : ℕ → Bytes → ℕ → Option Bytes
tamp_http m buf n = if m == 0 then some buf else (do
  http ← is_http buf n
  if http then (do (r, b) ← mod_http buf n m; some b) else some buf)

unfoldable pub tamp_minor : Option ℕ → Bytes → ℕ → Option Bytes
tamp_minor none buf n = some buf
tamp_minor (some minor) buf n = do
  hello ← is_tls_chello buf n
  if hello then store buf 2 (minor ∷ []) else some buf

unfoldable pub tamp_records :
    List Part → Stream → Bytes → ℕ → ℕ → Info → Option (Bytes × ℕ × Info × Stream)
tamp_records [] rnd buf bfsize n info = some (buf, n, info, rnd)
tamp_records (part ∷ parts) rnd buf bfsize n info = do
  hello ← is_tls_chello buf n
  if hello
      then record_loop (passes (part ∷ parts)) 0 0 rnd buf bfsize n info
      else some (buf, n, info, rnd)

-- The buffer afterwards, and `*n`.
unfoldable pub tamp :
    TampParams → Stream → Bytes → ℕ → ℕ → Info → Option (Bytes × ℕ × Info × Stream)
tamp dp rnd buf bfsize n info = do
  b ← tamp_http dp.mod_http buf n
  b1 ← tamp_minor dp.tlsminor b n
  tamp_records dp.tlsrec rnd b1 bfsize n info
