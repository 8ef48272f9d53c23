-- ===== src/Proxy.antt =====
-- proxy.c: the requests and replies of SOCKS4, SOCKS5 and the two modes that read the address from
-- the first bytes. The name lookup is a parameter: the address that getaddrinfo finds for a name.
-- An object is a list of bytes; `none` is an access outside of it.
pub mod Safe
pub mod Socks
pub mod Tunnel
pub mod Requests
pub mod Outgoing
use byedpi.Prelude.{
  ℕ, zero, suc, ◌+◌, ◌-◌, ◌*◌, ◌/◌, ◌%◌, ◌&&◌, ◌||◌, not, Bool, true, false, Option, none, some,
  List, [], ◌∷◌, ◌++◌, Bytes, read, load, store, length, replicate, ltb, leb, ◌==◌, ◌!=◌,
  if◌then◌else◌, ◌>>=◌,
}
use byedpi.Prelude.Int.{ℤ, pos, negsuc, pos_part, ◌-ℤ◌, ltb_ℤ}
use byedpi.Prelude.Ctype.{codes}
use byedpi.Packets.Tls.{Host, parse_tls}
use byedpi.Packets.Http.{Request, parse_http}
use byedpi.Net.{Family, inet, inet6, Addr, is_inet, htons}

-- struct params, as far as the requests read it.
pub record Settings : Type 0 where
  pub resolve : Bool
  pub ipv6 : Bool

abbrev pub failed : ℤ
failed = negsuc 0

-- -S_ER_GEN, -S_ER_HOST and -S_ER_ATP.
abbrev pub er_gen : ℤ
er_gen = negsuc 0

abbrev pub er_host : ℤ
er_host = negsuc 3

abbrev pub er_atp : ℤ
er_atp = negsuc 7

abbrev pub port_bytes : ℕ → Bytes
port_bytes p = (p % 256) ∷ (p / 256 % 256) ∷ []

abbrev pub port_of : Bytes → ℕ
port_of (lo ∷ hi ∷ xs) = lo + 256 * hi
port_of _ = 0

-- Whether the method 0 is among `n` bytes from `i` on.
unfoldable pub offers_none : Bytes → ℕ → ℕ → Option Bool
offers_none buf i zero = some false
offers_none buf i (suc n) = do
  c ← read buf i
  if c == 0 then some true else offers_none buf (i + 1) n

-- The returned number, and the reply if one is sent; the send succeeds.
unfoldable pub auth_socks5 : Bytes → ℕ → Option (ℤ × Option Bytes)
auth_socks5 buf n = if leb n 2 then some (failed, none) else (do
  count ← read buf 1
  if count != n - 2 then some (failed, none) else (do
    ok ← offers_none buf 2 (n - 2)
    some (if ok then (pos 0, some (5 ∷ 0 ∷ [])) else (failed, some (5 ∷ 0xff ∷ [])))))

unfoldable pub resp_s5_error : ℕ → Bytes
resp_s5_error e = 5 ∷ (e % 256) ∷ 0 ∷ 1 ∷ replicate 6 0

-- The flags of conev.h that resp_error looks at.
pub data Flag : Type 0 where
  flag_s4 flag_s5 flag_http flag_other : Flag

-- errno, as far as it is told apart.
pub data Errno : Type 0 where
  ok refused host_unreach timed_out net_unreach other_error : Errno

abbrev is_ok : Errno → Bool
is_ok ok = true
is_ok _ = false

unfoldable pub s5_code : Errno → ℕ
s5_code ok = 0
s5_code refused = 5
s5_code host_unreach = 4
s5_code timed_out = 4
s5_code net_unreach = 3
s5_code other_error = 1

-- The bytes that are sent.
unfoldable pub resp_error : Errno → Flag → Bytes
unfolding resp_s5_error
resp_error e flag_s4 = 0 ∷ (if is_ok e then 0x5a else 0x5b) ∷ replicate 6 0
resp_error e flag_s5 = resp_s5_error (s5_code e)
resp_error e flag_http =
    if is_ok e
    then codes "HTTP/1.1 200 OK" ++ (13 ∷ 10 ∷ 13 ∷ 10 ∷ [])
    else codes "HTTP/1.1 503 Fail" ++ (13 ∷ 10 ∷ 13 ∷ 10 ∷ [])
resp_error e flag_other = []

-- The block from `atp` to the port, written behind the three first bytes of a request.
unfoldable pub s5_set_addr : Bytes → ℕ → ℕ → Addr → Bool → Option (ℤ × Bytes)
s5_set_addr buf at n a end =
    if ltb n 10
    then some (failed, buf)
    else if is_inet a.family
    then (do
      b ← store buf ((if end then at - 10 else at) + 3) (1 ∷ (a.v4 ++ port_bytes a.port))
      some (pos 10, b))
    else if ltb n 22
    then some (failed, buf)
    else (do
      b ← store buf ((if end then at - 22 else at) + 3) (4 ∷ (a.v6 ++ port_bytes a.port))
      some (pos 22, b))

-- The end of a domain name: 0 if there is none in the object.
unfoldable pub str_end : Bytes → ℕ → Option ℕ
str_end [] i = none
str_end (c ∷ cs) zero = if c == 0 then some 0 else (do k ← str_end cs 0; some (k + 1))
str_end (c ∷ cs) (suc i) = do k ← str_end cs i; some (k + 1)

module _ (lookup : Bytes → Option Addr) where
  unfoldable pub with_port : ℤ → ℤ → Option Bytes → Addr → Bytes → ℤ × Addr
  with_port ret bad name a port = elim name [
    | none ↦ (ret, record a { port = port_of port })
    | some x ↦ elim (lookup x) [
      | none ↦ (bad, a)
      | some found ↦ (ret, record found { port = port_of port })
    ]
  ]

  -- `o`, the size of a request of each kind.
  unfoldable pub s5_size : Bytes → ℕ → ℕ → Option ℕ
  s5_size buf at atp =
      if atp == 1
      then some 10
      else if atp == 3
      then (do len ← read buf (at + 4); some (len + 7))
      else some (if atp == 4 then 22 else 0)

  -- The two bytes in front of the end of the request.
  unfoldable pub s5_port : Bytes → ℕ → ℕ → Option Bytes
  s5_port buf at o = if ltb (at + o) 2 then none else load buf (at + o - 2) 2

  unfoldable pub s5_name : Settings → Bytes → ℕ → ℕ → Addr → Option (ℤ × Addr)
  s5_name set buf at o a = if not set.resolve then some (er_atp, a) else (do
    len ← read buf (at + 4)
    name ← load buf (at + 5) len
    port ← s5_port buf at o
    some (if ltb len 3 then (er_host, a) else with_port (pos o) er_host (some name) a port))

  unfoldable pub s5_v4 : Bytes → ℕ → ℕ → Addr → Option (ℤ × Addr)
  s5_v4 buf at o a = do
    ip ← load buf (at + 4) 4
    port ← s5_port buf at o
    some (pos o, record a { family = inet; v4 = ip; port = port_of port })

  unfoldable pub s5_v6 : Settings → Bytes → ℕ → ℕ → Addr → Option (ℤ × Addr)
  s5_v6 set buf at o a = if not set.ipv6 then some (er_atp, a) else (do
    ip ← load buf (at + 4) 16
    port ← s5_port buf at o
    some (pos o, record a { family = inet6; v6 = ip; port = port_of port }))

  unfoldable pub s5_any : Bytes → ℕ → ℕ → Addr → Option (ℤ × Addr)
  s5_any buf at o a = do port ← s5_port buf at o; some (pos o, record a { port = port_of port })

  -- The request lies at `at` and has `n` bytes.
  unfoldable pub s5_get_addr : Settings → Bytes → ℕ → ℕ → Addr → Option (ℤ × Addr)
  s5_get_addr set buf at n a = if ltb n 8 then some (er_gen, a) else (do
    atp ← read buf (at + 3)
    o ← s5_size buf at atp
    if ltb n o
        then some (er_gen, a)
        else if atp == 1
        then s5_v4 buf at o a
        else if atp == 3
        then s5_name set buf at o a
        else if atp == 4
        then s5_v6 set buf at o a
        else s5_any buf at o a)

  -- A name of 3 to 255 bytes is looked up.
  unfoldable pub found_host : Bytes → Option ℕ → ℤ → Addr → Option (ℤ × Addr)
  found_host buf none len a = some (failed, a)
  found_host buf (some h) len a =
      if ltb_ℤ len (pos 3) || ltb_ℤ (pos 255) len then some (failed, a) else (do
        name ← load buf h (pos_part len)
        some (elim (lookup name) [ none ↦ (failed, a) | some found ↦ (pos 0, found) ]))

  abbrev pub set_port : ℕ → ℤ × Addr → ℤ × Addr
  set_port port (pos r, a) = (pos r, record a { port = htons port })
  set_port port (negsuc r, a) = (negsuc r, a)

  abbrev port_or_zero : Option ℕ → ℕ
  port_or_zero none = 0
  port_or_zero (some p) = p

  unfoldable pub http_get_addr : Bytes → ℕ → Addr → Option (ℤ × Addr)
  unfolding found_host
  http_get_addr buf n a = do
    r ← parse_http true buf n
    res ← found_host buf r.hs r.len a
    some (set_port (port_or_zero r.port) res)

  unfoldable pub tls_get_addr : Settings → Bytes → ℕ → Addr → Option (ℤ × Addr)
  unfolding found_host
  tls_get_addr set buf n a = do
    t ← parse_tls buf n
    if ltb t.len 3 || ltb 255 t.len then some (failed, a) else (do
      res ← if set.resolve then found_host buf t.hs (pos t.len) a else some (pos 0, a)
      some (set_port 443 res))

  -- A SOCKS4a request: the name behind the user id, up to the last byte.
  unfoldable pub s4_name : Settings → Bytes → ℕ → Addr → Bytes → Option (ℤ × Addr)
  s4_name set buf n a port = do
    last ← read buf (n - 1)
    if not set.resolve || last != 0 then some (failed, a) else (do
      id_end ← str_end buf 8
      let len = pos n -ℤ pos (id_end + 2)
      if ltb_ℤ len (pos 3) || ltb_ℤ (pos 255) len then some (failed, a) else (do
        name ← load buf (id_end + 1) (pos_part len)
        some (with_port (pos 0) failed (some name) a port)))

  -- The struct has 8 bytes; ntohl(ip) <= 255 is three zeros in front.
  unfoldable pub s4_get_addr : Settings → Bytes → ℕ → Addr → Option (ℤ × Addr)
  s4_get_addr set buf n a = if ltb n 9 then some (failed, a) else (do
    cmd ← read buf 1
    port ← load buf 2 2
    ip ← load buf 4 4
    x ← read ip 0
    y ← read ip 1
    z ← read ip 2
    if cmd != 1
        then some (failed, a)
        else if x == 0 && y == 0 && z == 0
        then s4_name set buf n a port
        else some (pos 0, record a { family = inet; v4 = ip; port = port_of port }))
