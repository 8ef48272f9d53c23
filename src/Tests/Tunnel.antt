-- ===== src/Tests/Tunnel.antt =====
-- The tunnel and the hooks at concrete inputs, with a socket of Desync.Kernel under send_plain.
use byedpi.Prelude.{
  ℕ, zero, suc, ◌≡◌, refl, true, false, Option, none, some, [], ◌∷◌, ◌++◌, Bytes, arith, take, drop,
  slice,
}
use byedpi.Prelude.Int.{ℤ, pos, negsuc}
use byedpi.Desync.Kernel.{Kernel, whole, short, call, send_range}
use byedpi.Extend.Hooks.{Side, HookParams, Answers, Handed, count_sent, send_plain}
use byedpi.Extend.Hooks.Saved.{received, kept, flat, received-kept}
use byedpi.Proxy.Tunnel.{mod_both, pump, Sent, Hooks, After, transfer}

-- Two sockets: the bytes that will come, those that came, those that went, and the second socket.
record Wire : Type 0 where
  coming : Bytes
  came : Bytes
  gone : Bytes
  side : Side
  kernel : Kernel

abbrev take_bytes : Wire → ℕ → Bytes → Option Bytes × Wire
take_bytes s zero xs = (some [], s)
take_bytes s (suc n) [] = (some [], s)
take_bytes s (suc n) (x ∷ xs) =
    (some (x ∷ take n xs), record s { coming = drop n xs; came = s.came ++ (x ∷ take n xs) })

abbrev put_bytes : Wire → Bytes → ℕ → ℤ → Handed → ℤ × Sent × Wire
put_bytes s b off (negsuc k) h = (
  negsuc k,
  record { bytes = h.bytes; count = h.count; wait = h.wait },
  record s { kernel = h.kernel },
)
put_bytes s b off (pos sn) h = (
  pos sn,
  record { bytes = h.bytes; count = h.count; wait = h.wait },
  record s { kernel = h.kernel; side = h.pair; gone = s.gone ++ slice b off sn },
)

abbrev wire_send : Wire → Bytes → ℕ → ℕ → ℤ × Sent × Wire
wire_send s b off count =
    let h = send_plain (negsuc 0) b off count s.side s.kernel in put_bytes s b off h.ret h

abbrev wires : Hooks Wire
wires = record {
  recv = λ s size. take_bytes s size s.coming;
  send = wire_send;
  mod_etype = λ s. (true, s);
}

abbrev server : Side
server = record {
  recv_count = 0;
  round_sent = 0;
  round_count = 0;
  part_sent = 0;
  mark = false;
  counts_timeouts = false;
  sq_buff = none;
}

-- Two bytes are held, five more will come, and the second send takes only one.
abbrev wire : Wire
wire = record {
  coming = 3 ∷ 4 ∷ 5 ∷ 6 ∷ 7 ∷ [];
  came = 1 ∷ 2 ∷ [];
  gone = [];
  side = server;
  kernel = record {
    replies = whole ∷ short 1 ∷ [];
    notsent = [];
    eagain = false;
    sent = [];
    restore_ttl = false;
    restore_md5 = false;
    restore_fake = none;
  };
}

abbrev left_over : Option (After Wire) → Option Bytes
left_over none = none
left_over (some r) = elim r.buff [ none ↦ none | some b ↦ some (drop b.offset b.bytes) ]

transfer_run :
    left_over (transfer wires 4 9 (some (record { bytes = 1 ∷ 2 ∷ []; offset = 0; lock = 2 })) wire)
    ≡ some (4 ∷ 5 ∷ 6 ∷ [])
unfolding transfer pump mod_both send_plain count_sent send_range call
transfer_run = refl

abbrev params : HookParams
params = record {
  bfsize = 8;
  auto_reconnect = true;
  timeout = false;
  to_bytes_lim = 0;
  round0 = 0;
  round1 = 0;
}

abbrev quiet : Answers
quiet = record { cancelled = false; timer_left = false; reconnected = false }

received-kept_example :
    (received params quiet server server ((1 ∷ 2 ∷ []) ∷ (3 ∷ []) ∷ [])).0.sq_buff
    ≡ kept 8 (1 ∷ 2 ∷ 3 ∷ [])
unfolding flat
received-kept_example =
    received-kept params quiet server server (1 ∷ 2 ∷ []) ((3 ∷ []) ∷ []) refl refl refl
      (omega arith)
