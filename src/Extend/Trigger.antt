-- ===== src/Extend/Trigger.antt =====
-- How extend.c goes on to another group when something was detected: the searches of on_trigger and
-- on_response through the groups, and the record tracking of try_set_tls_timer.
pub mod Records
use byedpi.Prelude.{
  ℕ, zero, suc, ◌+◌, ◌-◌, ◌*◌, ◌≤◌, ◌<◌, ◌≡◌, ◌⊎◌, inl, inr, refl, ◌&&◌, ◌||◌, not, Bool, true,
  false, Option, none, some, List, [], ◌∷◌, Bytes, read, length, store, arith, bit_and, bit_or, has,
  ltb, leb, ◌==◌, ◌!=◌, if◌then◌else◌, ◌>>=◌, Bool-cases,
}
use byedpi.Prelude.Word.{Word, meets, or_word, without, is_empty}
use byedpi.Packets.Tls.{is_tls_chello, is_tls_shello, antohs}
use byedpi.Packets.Reply.{is_http_redirect, neq_tls_sid}
use byedpi.Extend.Groups.{In}
use byedpi.Extend.Filter.{Group}

abbrev pub auto_onreconn : ℕ
auto_onreconn = 1

abbrev pub auto_noreconn : ℕ
auto_noreconn = 2

abbrev pub detect_http_locat : ℕ
detect_http_locat = 1

abbrev pub detect_tls_err : ℕ
detect_tls_err = 2

-- The loop of on_trigger: the groups from `dp` on, `uncheked` and lav->dp_mask. The result is
-- `next`, and both masks.
unfoldable pub next_loop : List Group → ℕ → Bool → Word → Word → Option Group × Word × Word
next_loop [] type can_reconn uncheked mask = (none, uncheked, mask)
next_loop (dp ∷ dps) type can_reconn uncheked mask =
    let rest = next_loop dps type can_reconn (without uncheked dp.bit) (or_word mask dp.bit) in
    if is_empty uncheked && dp.detect == 0
    then (none, uncheked, mask)
    else if not (meets dp.bit mask)
        && (dp.detect == 0 || has dp.detect type)
        && (not (has dp.auto_level auto_onreconn) || can_reconn)
    then (some dp, uncheked, mask)
    else rest

-- can_reconn: the first request is kept, or nothing was received yet, and the client is alive.
abbrev pub can_reconnect : Bool → ℕ → ℕ → Bool → Bool
can_reconnect kept lav_count val_count client_alive =
    (kept || (lav_count == 0 && val_count == 0)) && client_alive

-- The group of on_response whose detection the answer meets.
unfoldable pub detects : Group → Bytes → ℕ → Bytes → ℕ → Option Bool
detects dp req qn resp sn = do
  moved ← if has dp.detect detect_http_locat then is_http_redirect req qn resp sn else some false
  if moved
      then some true
      else if has dp.detect detect_tls_err
      then (do
        hello ← is_tls_chello req qn
        answer ← if hello then is_tls_shello resp sn else some true
        if hello && not answer then some true else neq_tls_sid req qn resp sn)
      else some false

unfoldable pub response_loop : List Group → Word → Bytes → ℕ → Bytes → ℕ → Option (Option Group)
response_loop [] mask req qn resp sn = some none
response_loop (dp ∷ dps) mask req qn resp sn =
    let rest = response_loop dps mask req qn resp sn in
    if meets dp.bit mask
    then rest
    else (do hit ← detects dp req qn resp sn; if hit then some (some dp) else rest)

-- struct eval, as far as the records of a TLS stream are followed.
pub record Follow : Type 0 where
  pub tls_rec : Bytes
  pub tls_rec_pos : ℕ
  pub tls_rec_size : ℕ

-- How a pass of the loop ends: at a return of -1, or at the test of `pos < n`.
pub data Pass : Type 0 where
  bad : Follow → Pass
  next : Follow → ℕ → Pass

-- What is behind the tests: the rest of the record, as far as it is there.
unfoldable pub take_record : Follow → ℕ → ℕ → Pass
take_record f at n =
    let left = f.tls_rec_size - f.tls_rec_pos in
    let end = if ltb n (at + left) then n - at else left in
    if leb f.tls_rec_size f.tls_rec_pos
    then bad f
    else next (record f { tls_rec_pos = f.tls_rec_pos + end }) (at + end)

unfoldable pub follow_pass : Follow → Bytes → ℕ → ℕ → Option Pass
follow_pass f buf at n =
    if ltb f.tls_rec_pos 5
    then (do
      c ← read buf at
      b ← store f.tls_rec f.tls_rec_pos (c ∷ [])
      some (next (record f { tls_rec = b; tls_rec_pos = f.tls_rec_pos + 1 }) (at + 1)))
    else if f.tls_rec_pos == 5
    then (do
      size ← antohs f.tls_rec 3
      t ← read f.tls_rec 0
      let g = record f { tls_rec_size = size + 5 }
      some (if ltb t 0x14 || ltb 0x18 t then bad g else take_record g at n))
    else some (
        if f.tls_rec_pos == f.tls_rec_size
        then next (record f { tls_rec_pos = 0; tls_rec_size = 0 }) at
        else take_record f at n)

-- do { ... } while (pos < n): whether it ends without an error, and the state. Every pass but the
-- one that resets the state takes a byte.
unfoldable pub follow_loop : ℕ → Follow → Bytes → ℕ → ℕ → Option (Bool × Follow)
unfolding follow_pass
follow_loop zero f buf at n = none
follow_loop (suc fuel) f buf at n = do
  p ← follow_pass f buf at n
  elim p [
    | bad g ↦ some (false, g)
    | next g at' ↦ if ltb at' n then follow_loop fuel g buf at' n else some (true, g)
  ]

-- Two passes for a byte are enough.
unfoldable pub follow : Follow → Bytes → ℕ → Option (Bool × Follow)
unfolding follow_loop
follow f buf n = follow_loop (2 * n + 2) f buf 0 n
