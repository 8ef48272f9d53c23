-- ===== src/Extend/Hooks.antt =====
-- The two hooks of extend.c between the sockets and the tunnel: tcp_send_hook and tcp_recv_hook,
-- with free_first_req. What setup_conn, handle_err, on_response and the timers answer is given.
pub mod Saved
use byedpi.Prelude.{
  ℕ, ◌+◌, ◌-◌, ◌&&◌, ◌||◌, not, Bool, true, false, Option, none, some, [], ◌++◌, Bytes, length, ltb,
  leb, ◌==◌, if◌then◌else◌, ◌>>=◌,
}
use byedpi.Prelude.Int.{ℤ, pos, negsuc}
use byedpi.Packets.Edit.{Stream}
use byedpi.Desync.Offset.{is_negative}
use byedpi.Desync.Kernel.{Kernel, send_range}
use byedpi.Desync.Split.{SplitParams, Call, Outcome, desync}
use byedpi.Extend.Filter.{check_round}

-- struct eval, as far as the hooks read or write it. A saved request is the bytes up to its `lock`;
-- its capacity is the size of a buffer.
pub record Side : Type 0 where
  pub recv_count : ℕ
  pub round_sent : ℕ
  pub round_count : ℕ
  pub part_sent : ℕ
  pub mark : Bool
  pub counts_timeouts : Bool
  pub sq_buff : Option Bytes

-- struct params, as far as the hooks read it, with the rounds of the group.
pub record HookParams : Type 0 where
  pub bfsize : ℕ
  pub auto_reconnect : Bool
  pub timeout : Bool
  pub to_bytes_lim : ℕ
  pub round0 : ℕ
  pub round1 : ℕ

-- What the functions answer that the receiving hook calls: cancel_setup and on_response for 0, and
-- try_set_tls_timer for other than 0.
pub record Answers : Type 0 where
  pub cancelled : Bool
  pub timer_left : Bool
  pub reconnected : Bool

-- A new round begins with the first bytes after the other side was sent something.
unfoldable pub count_recv : Side → Side → ℕ → Side × Side
count_recv val pair n =
    let counted = record val { recv_count = val.recv_count + n } in
    if val.round_sent == 0
    then (
      record counted { round_count = val.round_count + 1 },
      record pair { round_sent = 0; part_sent = 0 },
    )
    else (counted, pair)

-- The first request is kept while it fits, for a connection that has to be made again.
unfoldable pub save_request : HookParams → Side → Bytes → Side
save_request p val bs =
    let keep = λ (saved : Bytes).
      if leb p.bfsize (length saved + length bs)
      then record val { sq_buff = none }
      else record val { sq_buff = some (saved ++ bs) } in
    if p.auto_reconnect
    then elim val.sq_buff [
      | some saved ↦ keep saved
      | none ↦ if val.recv_count == length bs then keep [] else val
    ]
    else val

-- The bytes of a server: `val` is its side and `pair` the client.
unfoldable pub remote_recv : HookParams → Answers → Side → Side → ℕ → ℤ × Side × Side
remote_recv p a val pair n =
    if (val.round_sent == 0)
      && check_round p.round0 p.round1 val.round_count
      && not (check_round p.round0 p.round1 (val.round_count + 1))
      && not a.cancelled
    then (negsuc 0, val, pair)
    else (let client = if pair.mark && a.timer_left then record pair { mark = false } else pair in
        let timed =
          if val.counts_timeouts
            && p.timeout
            && not (p.to_bytes_lim == 0)
            && ltb p.to_bytes_lim val.recv_count
          then record val { counts_timeouts = false }
          else val in
        elim client.sq_buff [
          | none ↦ (pos n, timed, client)
          | some saved ↦
              if a.reconnected
              then (pos 0, timed, client)
              else (pos n, timed, record client { sq_buff = none })
        ])

-- tcp_recv_hook, after a recv that gave bytes.
unfoldable pub tcp_recv_hook : HookParams → Answers → Bool → Side → Side → Bytes → ℤ × Side × Side
unfolding count_recv save_request remote_recv
tcp_recv_hook p a is_remote val pair bs =
    let (val', pair') = count_recv val pair (length bs) in
    if is_remote
    then remote_recv p a val' pair' (length bs)
    else (pos (length bs), save_request p val' bs, pair')

-- What tcp_send_hook leaves: its number, the buffer and `*n`, `*wait`, the client's side, the socket.
pub record Handed : Type 0 where
  pub ret : ℤ
  pub bytes : Bytes
  pub count : ℕ
  pub wait : Bool
  pub pair : Side
  pub kernel : Kernel

-- The end of the hook: an error goes to handle_err, and what was sent is counted.
unfoldable pub count_sent : ℤ → Handed → Handed
count_sent err h = elim h.ret [
  | negsuc k ↦ record h { ret = err }
  | pos sn ↦ record h { pair = record h.pair { round_sent = h.pair.round_sent + sn } }
]

abbrev pub again_is_zero : ℤ × Kernel → ℤ
again_is_zero (negsuc k, s) = if s.eagain then pos 0 else negsuc k
again_is_zero (pos n, s) = pos n

-- Sent as it is: the answers of a server, and requests after the rounds of the group. With EAGAIN
-- nothing is sent, and the hook returns at once.
unfoldable pub send_plain : ℤ → Bytes → ℕ → ℕ → Side → Kernel → Handed
unfolding count_sent
send_plain err buf off n pair k =
    let r = send_range k off (n - off) in
    count_sent err (record {
      ret = again_is_zero r;
      bytes = buf;
      count = n;
      wait = false;
      pair = pair;
      kernel = r.1;
    })

-- Sent by desync.
unfoldable pub send_split :
    ℤ
    → SplitParams
    → ℕ
    → ℕ
    → (ℕ → ℕ → Stream)
    → Bytes
    → ℕ
    → ℕ
    → Side
    → Stream
    → Kernel
    → Option Handed
unfolding count_sent
send_split err dp bfsize fuel draws buf off n pair rnd k = do
  (b, n', done) ←
      desync dp
        (record {
          buf = buf;
          bfsize = bfsize;
          offset = off;
          skip = pair.round_sent;
          part_skip = pair.part_sent;
          fuel = fuel;
          draws = draws;
        })
        n rnd k
  some (
      count_sent err (record {
        ret = done.ret;
        bytes = b;
        count = n';
        wait = done.wait;
        pair = record pair { part_sent = done.part_sent };
        kernel = done.kernel;
      }))

-- tcp_send_hook to a server; `set_up` tells whether setup_conn is good.
unfoldable pub send_request :
    HookParams
    → Bool
    → ℤ
    → SplitParams
    → ℕ
    → (ℕ → ℕ → Stream)
    → Bytes
    → ℕ
    → ℕ
    → Side
    → Stream
    → Kernel
    → Option Handed
unfolding send_plain send_split
send_request p set_up err dp fuel draws buf off n pair rnd k =
    if (pair.recv_count == n) && not set_up
    then some
        (record { ret = negsuc 0; bytes = buf; count = n; wait = false; pair = pair; kernel = k })
    else if check_round p.round0 p.round1 pair.round_count
    then send_split err dp p.bfsize fuel draws buf off n pair rnd k
    else some (send_plain err buf off n pair k)
