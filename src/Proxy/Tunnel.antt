-- ===== src/Proxy/Tunnel.antt =====
-- on_tunnel of proxy.c: what was read from one side is sent to the other. The
-- hooks of extend.c that it calls are a parameter.
use byedpi.Prelude.{
  ℕ, zero, suc, ◌+◌, ◌-◌, ◌&&◌, ◌||◌, not, ◌>>=◌, Bool, true, false, Option, none, some, [], ◌∷◌,
  Bytes, length, ltb, ◌==◌, if◌then◌else◌,
}
use byedpi.Prelude.Int.{ℤ, pos, negsuc}

-- struct buffer, with the bytes that it holds.
pub record Buff : Type 0 where
  pub bytes : Bytes
  pub offset : ℕ
  pub lock : ℕ

-- What tcp_send_hook leaves beside its number: the bytes of the buffer, `*n`, and `*wait`.
pub record Sent : Type 0 where
  pub bytes : Bytes
  pub count : ℕ
  pub wait : Bool

-- tcp_recv_hook gives no bytes for 0, and `none` for -1.
pub record Hooks (S : Type 0) : Type 0 where
  pub recv : S → ℕ → Option Bytes × S
  pub send : S → Bytes → ℕ → ℕ → ℤ × Sent × S
  pub mod_etype : S → Bool × S

-- The outcome of a call: its number, val->buff, and the rest of the state.
pub record After (S : Type 0) : Type 0 where
  pub ret : ℤ
  pub buff : Option Buff
  pub io : S

-- `etype`: POLLTIMEOUT, and POLLOUT.
pub record Event : Type 0 where
  pub timeout : Bool
  pub pollout : Bool

-- val->buff and pair->buff.
pub record Buffs : Type 0 where
  pub of_val : Option Buff
  pub of_pair : Option Buff

abbrev is_free : Option Buff → Bool
is_free none = true
is_free (some b) = false

module _ {S : Type 0} where
  abbrev pub failed : Option Buff → S → After S
  failed b s = record { ret = negsuc 0; buff = b; io = s }

  abbrev pub fine : Option Buff → S → After S
  fine b s = record { ret = pos 0; buff = b; io = s }

  -- Two calls of mod_etype, the second only if the first is good.
  unfoldable pub mod_both : Hooks S → S → Bool × S
  mod_both h s = let first = h.mod_etype s in if first.0 then h.mod_etype first.1 else first

  abbrev pub after_mod : Option Buff → Bool × S → After S
  after_mod b (ok, s) = if ok then fine b s else failed b s

  -- The end of a round, after the send: the rest stays in the buffer, or the loop goes on, or it
  -- ends with the buffer given back.
  abbrev pub after_send : Hooks S → ℕ → ℤ × Sent × S → (S → Option (After S)) → Option (After S)
  after_send h size (negsuc k, d, s) again =
      some (failed (some (record { bytes = d.bytes; offset = 0; lock = 0 })) s)
  after_send h size (pos sn, d, s) again =
      if ltb sn d.count || d.wait
      then some (
          after_mod (some (record { bytes = d.bytes; offset = sn; lock = d.count })) (mod_both h s))
      else if d.count == size
      then again s
      else some (fine none s)

  -- One round: what was received is sent.
  abbrev pub after_recv : Hooks S → ℕ → Option Bytes × S → (S → Option (After S)) → Option (After S)
  after_recv h size (none, s) again =
      some (failed (some (record { bytes = []; offset = 0; lock = 0 })) s)
  after_recv h size (some [], s) again = some (fine none s)
  after_recv h size (some (b ∷ bs), s) again =
      after_send h size (h.send s (b ∷ bs) 0 (length (b ∷ bs))) again

  -- do { ... } while (n == buff->size); `none` is out of fuel.
  unfoldable pub pump : Hooks S → ℕ → ℕ → S → Option (After S)
  unfolding mod_both
  pump h size zero s = none
  pump h size (suc fuel) s = after_recv h size (h.recv s size) (λ s'. pump h size fuel s')

  -- Then the two ends are watched for input again.
  abbrev pub resume : Hooks S → ℕ → ℕ → Bool × S → Option (After S)
  resume h size fuel (false, s) = some (failed none s)
  resume h size fuel (true, s) = pump h size fuel s

  -- What is left of the last call is sent first; `n` is what was left when the call began.
  abbrev pub after_rest : Hooks S → ℕ → ℕ → Buff → ℕ → ℤ × Sent × S → Option (After S)
  after_rest h size fuel b n (negsuc k, d, s) = some (failed (some b) s)
  after_rest h size fuel b n (pos sn, d, s) =
      if ltb sn n || d.wait
      then some (fine (some (record { bytes = d.bytes; offset = b.offset + sn; lock = d.count })) s)
      else resume h size fuel (mod_both h s)

  -- on_tunnel from the choice of the direction on.
  unfoldable pub transfer : Hooks S → ℕ → ℕ → Option Buff → S → Option (After S)
  unfolding pump mod_both
  transfer h size fuel none s = pump h size fuel s
  transfer h size fuel (some b) s =
      after_rest h size fuel b (b.lock - b.offset) (h.send s b.bytes b.offset b.lock)

  -- on_tunnel: `here` are the hooks from val to its pair, `there` those from the pair to val.
  unfoldable pub on_tunnel :
      Hooks S → Hooks S → (S → ℤ × S) → ℕ → ℕ → Event → ℕ → Buffs → S → Option (ℤ × Buffs × S)
  unfolding transfer
  on_tunnel here there on_timeout size fuel e round_count b s =
      if e.timeout && is_free b.of_pair && not (round_count == 0)
      then (let (r, s') = on_timeout s in some (r, b, s'))
      else if e.pollout || e.timeout
      then (do
        r ← transfer there size fuel b.of_pair s
        some (r.ret, record b { of_pair = r.buff }, r.io))
      else (do
        r ← transfer here size fuel b.of_val s
        some (r.ret, record b { of_val = r.buff }, r.io))
