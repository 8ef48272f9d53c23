-- ===== src/Proxy/Requests.antt =====
-- on_request of proxy.c with handle_s5 and save_buffer. What connect_hook and udp_associate answer
-- for an address is given; a send succeeds, and there is memory for buffers.
pub mod Served
use byedpi.Prelude.{
  ℕ, zero, suc, ◌+◌, ◌-◌, ◌&&◌, ◌||◌, not, Bool, true, false, Option, none, some, List, [], ◌∷◌,
  ◌++◌, Bytes, read, load, take, slice, ltb, leb, ◌==◌, if◌then◌else◌, ◌>>=◌,
}
use byedpi.Prelude.Int.{ℤ, pos, negsuc, neg_part}
use byedpi.Prelude.Ctype.{codes}
use byedpi.Mpool.{memcmp, is_same}
use byedpi.Packets.Tls.{is_tls_chello}
use byedpi.Net.{Addr}
use byedpi.Proxy.{
  Settings, failed, Flag, flag_s4, flag_s5, flag_http, flag_other, Errno, other_error, auth_socks5,
  resp_s5_error, resp_error, s4_get_addr, s5_get_addr, http_get_addr, tls_get_addr,
}

-- params.mode and params.udp, and whether a first request is kept.
pub record Modes : Type 0 where
  pub socks4 : Bool
  pub socks5 : Bool
  pub http : Bool
  pub shadowsocks : Bool
  pub rawtls : Bool
  pub tcp : Bool
  pub udp : Bool
  pub auto_reconnect : Bool

-- struct eval, as far as a request changes it. A buffer is the bytes up to its lock.
pub record Client : Type 0 where
  pub flag : Flag
  pub buff : Option Bytes
  pub sq_buff : Option Bytes
  pub recv_count : ℕ
  pub round_count : ℕ

pub record Hook : Type 0 where
  pub connect : Addr → ℤ
  pub associate : Addr → ℤ

-- What a hook is asked: connect_hook, or udp_associate.
pub data Asked : Type 0 where
  connects associates : Addr → Asked

abbrev pub answer : Hook → Asked → ℤ
answer h (connects a) = h.connect a
answer h (associates a) = h.associate a

-- The number, the client, what was sent to it, and what the hooks were asked.
pub record Out : Type 0 where
  pub ret : ℤ
  pub client : Client
  pub sent : List Bytes
  pub calls : List Asked

abbrev pub quiet : ℤ → Client → Out
quiet r c = record { ret = r; client = c; sent = []; calls = [] }

abbrev pub is_s5 : Flag → Bool
is_s5 flag_s5 = true
is_s5 _ = false

abbrev sent_of : Option Bytes → List Bytes
sent_of none = []
sent_of (some b) = b ∷ []

-- The reply to the methods of SOCKS5.
abbrev pub greeted : Client → ℤ × Option Bytes → Out
greeted c (pos k, reply) = record {
  ret = pos 0;
  client = record c { flag = flag_s5 };
  sent = sent_of reply;
  calls = [];
}
greeted c (negsuc k, reply) = record { ret = failed; client = c; sent = sent_of reply; calls = [] }

-- A hook takes the address, or the client is told why there is none.
abbrev pub addressed : Hook → (Addr → Asked) → Client → ℤ × Addr → Out
addressed h ask c (pos o, a) = record {
  ret = answer h (ask a);
  client = c;
  sent = [];
  calls = ask a ∷ [];
}
addressed h ask c (negsuc k, a) = record {
  ret = pos 1;
  client = c;
  sent = resp_s5_error (k + 1) ∷ [];
  calls = [];
}

unfoldable pub save_buffer : Modes → Client → Bytes → ℕ → Client
save_buffer m c buf n = record c {
  buff = some (take n buf);
  recv_count = n;
  round_count = c.round_count + 1;
  sq_buff = if m.auto_reconnect then some (take n buf) else c.sq_buff;
}

abbrev noreply : Bytes → List Bytes
noreply [] = []
noreply (b ∷ bs) = (b ∷ bs) ∷ []

-- resp_error(val->fd, ENOENT, val->flag)
unfoldable pub refuse : Out → Out
refuse r = record r {
  ret = failed;
  sent = r.sent ++ noreply (resp_error other_error r.client.flag);
}

abbrev pub is_zero : ℤ → Bool
is_zero (pos zero) = true
is_zero _ = false

abbrev pub is_positive : ℤ → Bool
is_positive (pos (suc k)) = true
is_positive _ = false

abbrev pub ended : Out → Out
ended r = if is_zero r.ret then r else refuse r

-- connect_hook, unless there is an error.
abbrev pub connected : Hook → Client → ℤ × Addr → Out
connected h c (r, a) =
    if is_zero r
    then record { ret = h.connect a; client = c; sent = []; calls = connects a ∷ [] }
    else quiet r c

unfoldable pub is_connect : Modes → Bytes → ℕ → Option Bool
is_connect m buf n =
    if m.http && ltb 7 n
    then (do s ← memcmp buf (codes "CONNECT") 0 7; some (is_same s))
    else some false

unfoldable pub is_raw_tls : Modes → Bytes → ℕ → Option Bool
is_raw_tls m buf n = if m.rawtls then is_tls_chello buf n else some false

-- *buff->data <= S_ATP_I6, of a signed `char`.
unfoldable pub at_most_i6 : ℕ → Bool
at_most_i6 c = leb c 4 || leb 128 c

module _ (lookup : Bytes → Option Addr) (h : Hook) (set : Settings) (m : Modes) where
  -- The request behind the greeting.
  unfoldable pub s5_command : Bytes → ℕ → Client → Addr → Option Out
  s5_command buf n c a = if ltb n 8 then some (quiet failed c) else (do
    cmd ← read buf 1
    if cmd == 1
        then (do x ← s5_get_addr lookup set buf 0 n a; some (addressed h connects c x))
        else if cmd == 3 && m.udp
        then (do x ← s5_get_addr lookup set buf 0 n a; some (addressed h associates c x))
        else some (record { ret = pos 1; client = c; sent = resp_s5_error 7 ∷ []; calls = [] }))

  unfoldable pub handle_s5 : Bytes → ℕ → Client → Addr → Option Out
  unfolding s5_command
  handle_s5 buf n c a =
      if is_s5 c.flag then s5_command buf n c a else (do r ← auth_socks5 buf n; some (greeted c r))

  unfoldable pub serve_s5 : Bytes → ℕ → Client → Addr → Option Out
  unfolding handle_s5
  serve_s5 buf n c a = do
    r ← handle_s5 buf n c a
    some (if is_positive r.ret then record r { ret = failed } else ended r)

  -- The bytes behind the address are moved to the front and kept. The request begins three bytes
  -- before the data, in struct buffer.
  abbrev pub shifted : Bytes → ℕ → Client → ℤ × Addr → Option Out
  shifted buf n c (negsuc k, a) = some (quiet failed c)
  shifted buf n c (pos o, a) = do
    rest ← load buf (o - 3) (n - (o - 3))
    some (ended (connected h (save_buffer m c rest (n - (o - 3))) (pos 0, a)))

  unfoldable pub serve_shadow : Bytes → ℕ → Client → Addr → Option Out
  unfolding save_buffer
  serve_shadow buf n c a = do
    x ← s5_get_addr lookup set (0 ∷ 0 ∷ 0 ∷ buf) 0 (n + 3) a
    shifted buf n c x

  unfoldable pub serve_tls : Bytes → ℕ → Client → Addr → Option Out
  unfolding save_buffer
  serve_tls buf n c a = do
    x ← tls_get_addr lookup set buf n a
    some (ended (connected h (if is_zero x.0 then save_buffer m c buf n else c) x))

  -- A request of `n` bytes; `a` is the address that is all zeros.
  unfoldable pub on_request : Bytes → ℕ → Client → Addr → Option Out
  unfolding serve_s5 serve_shadow serve_tls save_buffer
  on_request buf n c a = if n == 0 then some (quiet failed c) else (do
    ver ← read buf 0
    http ← is_connect m buf n
    tls ← is_raw_tls m buf n
    if m.socks5 && ver == 5
        then serve_s5 buf n c a
        else if m.socks4 && ver == 4
        then (do
          x ← s4_get_addr lookup set buf n a
          some (ended (connected h (record c { flag = flag_s4 }) x)))
        else if http
        then (do
          x ← http_get_addr lookup buf n a
          some (ended (connected h (record c { flag = flag_http }) x)))
        else if m.shadowsocks && at_most_i6 ver
        then serve_shadow buf n c a
        else if tls
        then serve_tls buf n c a
        else if m.tcp
        then some (ended (connected h (save_buffer m c buf n) (pos 0, a)))
        else some (quiet failed c))
