-- ===== src/Proxy/Outgoing.antt =====
-- The sockets that proxy.c opens to servers: remote_sock, create_conn and udp_associate. What the
-- system calls answer is given; the sockets that are open outside of the event table are counted.
pub mod Balance
use byedpi.Prelude.{
  ℕ, ◌&&◌, ◌||◌, not, Bool, true, false, Option, none, some, List, [], ◌∷◌, Bytes, ◌==◌,
  if◌then◌else◌, ◌>>=◌,
}
use byedpi.Net.{Addr, Family, inet, inet6, is_inet, map_fix}
use byedpi.Conev.Events.{Poolhd, set_at, add_event, del_event}

-- What the calls of remote_sock answer: nb_socket, and then whether socket_mod, setsockopt with
-- IPV6_V6ONLY and bind succeed.
pub record SockCalls : Type 0 where
  pub socket : Option ℕ
  pub modded : Bool
  pub v6only : Bool
  pub bound : Bool

-- What those of create_conn answer; `connected` is also true at EINPROGRESS and EAGAIN.
pub record ConnCalls : Type 0 where
  pub sock : SockCalls
  pub syncnt : Bool
  pub fastopen : Bool
  pub nodelay : Bool
  pub connected : Bool
  pub added : Bool
  pub mod_etype : Bool

-- close(fd)
unfoldable pub close : ℕ → List ℕ → List ℕ
close fd [] = []
close fd (x ∷ xs) = if x == fd then xs else x ∷ close fd xs

abbrev pub same_family : Family → Family → Bool
same_family inet inet = true
same_family inet6 inet6 = true
same_family inet inet6 = false
same_family inet6 inet = false

-- The socket, or none for -1; the address as it is changed; and the open sockets.
abbrev pub opened : Family → SockCalls → Addr → List ℕ → Option ℕ → Option ℕ × Addr × List ℕ
opened family c dst outside none = (none, dst, outside)
opened family c dst outside (some fd) =
    let held = fd ∷ outside in
    if not c.modded
    then (none, dst, close fd held)
    else if not (is_inet family) && not c.v6only
    then (none, dst, close fd held)
    else if not c.bound
    then (none, dst, close fd held)
    else (some fd, dst, held)

-- `family` is that of params.baddr.
unfoldable pub remote_sock : Family → SockCalls → Addr → List ℕ → Option ℕ × Addr × List ℕ
unfolding close
remote_sock family c dst outside =
    let dst' = map_fix dst (not (is_inet family)) in
    if not (same_family dst'.family family)
    then (none, dst', outside)
    else opened family c dst' outside c.socket

-- Whether the function returns 0, the table, the open sockets outside of it, and the entry that was
-- paired.
pub record Conn : Type 0 where
  pub ok : Bool
  pub pool : Poolhd
  pub outside : List ℕ
  pub pair : Option ℕ

abbrev pub refused : Poolhd → List ℕ → Conn
refused pool outside = record { ok = false; pool = pool; outside = outside; pair = none }

-- val->pair = pair
abbrev pub point : Poolhd → ℕ → ℕ → Poolhd
point pool val pair = record pool {
  items = set_at pool.items val (record (pool.items val) { pair = some pair });
}

-- Behind add_event, which takes the socket over.
abbrev pub paired : ConnCalls → ℕ → ℕ → List ℕ → Option ℕ × Poolhd → Conn
paired c val fd held (none, pool) = refused pool (close fd held)
paired c val fd held (some pair, pool) =
    let outside = close fd held in
    if not c.mod_etype then refused pool outside else record {
      ok = true;
      pool = point (point pool val pair) pair val;
      outside = outside;
      pair = some pair;
    }

abbrev pub connecting : Bool → ConnCalls → Poolhd → ℕ → Option ℕ × Addr × List ℕ → Conn
connecting tfo c pool val (none, addr, outside) = refused pool outside
connecting tfo c pool val (some fd, addr, outside) =
    if not c.syncnt
    then refused pool (close fd outside)
    else if tfo && not c.fastopen
    then refused pool (close fd outside)
    else if not c.nodelay
    then refused pool (close fd outside)
    else if not c.connected
    then refused pool (close fd outside)
    else paired c val fd outside (add_event pool fd c.added)

unfoldable pub create_conn : Family → Bool → ConnCalls → Poolhd → ℕ → Addr → List ℕ → Conn
unfolding remote_sock close
create_conn family tfo c pool val dst outside =
    connecting tfo c pool val (remote_sock family c.sock dst outside)

-- What the calls of udp_associate answer behind remote_sock: add_event of the socket to the server,
-- getsockname, nb_socket and bind, add_event of that to the client, and getsockname, send and
-- mod_etype at the end.
pub record UdpCalls : Type 0 where
  pub sock : SockCalls
  pub added : Bool
  pub named : Bool
  pub socket : Option ℕ
  pub bound : Bool
  pub client_added : Bool
  pub client_named : Bool
  pub replied : Bool
  pub mod_etype : Bool

abbrev pub without_event : ℕ → Poolhd → ℕ → List ℕ → Option Conn
without_event fuel pool pair outside = do
  pool' ← del_event fuel pool pair
  some (refused pool' outside)

-- Three entries in a ring: the client's connection, its datagram socket, and that to the server.
abbrev pub ring : Poolhd → ℕ → ℕ → ℕ → Poolhd
ring pool val client pair = point (point (point pool val client) client pair) pair val

-- s5_set_addr has room for both families.
abbrev pub associated : ℕ → UdpCalls → ℕ → ℕ → ℕ → List ℕ → Option ℕ × Poolhd → Option Conn
associated fuel c val pair fd held (none, pool) = without_event fuel pool pair (close fd held)
associated fuel c val pair fd held (some client, pool) = some (record {
  ok = c.client_named && c.replied && c.mod_etype;
  pool = ring pool val client pair;
  outside = close fd held;
  pair = some client;
})

abbrev pub for_client : ℕ → UdpCalls → Poolhd → ℕ → ℕ → List ℕ → Option ℕ → Option Conn
for_client fuel c pool val pair outside none = without_event fuel pool pair outside
for_client fuel c pool val pair outside (some fd) =
    let held = fd ∷ outside in
    if not c.bound
    then without_event fuel pool pair (close fd held)
    else associated fuel c val pair fd held (add_event pool fd c.client_added)

abbrev pub for_server : ℕ → UdpCalls → ℕ → ℕ → List ℕ → Option ℕ × Poolhd → Option Conn
for_server fuel c val fd held (none, pool) = some (refused pool (close fd held))
for_server fuel c val fd held (some pair, pool) =
    let outside = close fd held in
    if not c.named
    then some (refused pool outside)
    else for_client fuel c pool val pair outside c.socket

abbrev pub associating : ℕ → UdpCalls → Poolhd → ℕ → Option ℕ × Addr × List ℕ → Option Conn
associating fuel c pool val (none, addr, outside) = some (refused pool outside)
associating fuel c pool val (some fd, addr, outside) =
    for_server fuel c val fd outside (add_event pool fd c.added)

-- `fuel` is that of del_event.
unfoldable pub udp_associate : ℕ → Family → UdpCalls → Poolhd → ℕ → Addr → List ℕ → Option Conn
unfolding remote_sock close
udp_associate fuel family c pool val dst outside =
    associating fuel c pool val (remote_sock family c.sock dst outside)
