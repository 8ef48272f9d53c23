-- ===== src/Extend/Filter.antt =====
-- The tests by which extend.c chooses a group for a connection. kavl_find is a parameter: a search
-- of the elements of a pool for one that compares the same.
use byedpi.Prelude.{
  ℕ, ◌+◌, ◌-◌, ◌*◌, ◌&&◌, ◌||◌, not, Bool, true, false, Option, none, some, List, Bytes, length,
  drop, take, bit_and, ltb, leb, has, ◌==◌, if◌then◌else◌, ◌>>=◌,
}
use byedpi.Prelude.Int.{pos, ltb_ℤ, pos_part}
use byedpi.Prelude.Word.{Word, meets}
use byedpi.Net.{Addr, is_inet, same_list, mapped_prefix}
use byedpi.Mpool.{Elem, CmpType}
use byedpi.Packets.Tls.{Host, parse_tls, is_tls_chello}
use byedpi.Packets.Http.{Request, is_http, parse_http}
use byedpi.Extend.Groups.{find_loop}

-- struct mphdr, as far as the tests read it.
pub record Pool : Type 0 where
  pub cmp_type : CmpType
  pub elems : List Elem

-- struct desync_params, as far as the choice of a group reads it.
pub record Group : Type 0 where
  pub id : ℕ
  pub bit : Word
  pub detect : ℕ
  pub auto_level : ℕ
  pub proto : ℕ
  pub pf0 : ℕ
  pub pf1 : ℕ
  pub round0 : ℕ
  pub round1 : ℕ
  pub hosts : Option Pool
  pub ipset : Option Pool

abbrev pub is_tcp : ℕ
is_tcp = 1

abbrev pub is_udp : ℕ
is_udp = 2

abbrev pub proto_http : ℕ
proto_http = 4

abbrev pub proto_https : ℕ
proto_https = 8

abbrev pub is_ipv4 : ℕ
is_ipv4 = 16

pub data Sock : Type 0 where
  stream dgram : Sock

abbrev pub is_stream : Sock → Bool
is_stream stream = true
is_stream dgram = false

unfoldable pub check_round : ℕ → ℕ → ℕ → Bool
check_round nr0 nr1 r = (nr1 == 0 && leb r 1) || (leb nr0 r && leb r nr1)

-- proto & ~IS_IPV4 is `proto` less the bit.
unfoldable pub check_proto_tcp : ℕ → Bytes → ℕ → Option Bool
check_proto_tcp proto buf n = if proto - bit_and proto is_ipv4 == 0 then some true else (do
  http ← if has proto proto_http then is_http buf n else some false
  if http then some true else if has proto proto_https then is_tls_chello buf n else some false)

-- The port test of check_l34, on ports as they lie in the address.
unfoldable pub check_port : ℕ → ℕ → ℕ → Bool
check_port pf0 pf1 port = pf0 == 0 || not (ltb port pf0 || ltb pf1 port)

-- v && v->len <= len
abbrev pub short_enough : Option Elem → ℕ → Bool
short_enough none len = false
short_enough (some v) len = leb v.len len

-- A name that was parsed, as an offset and a length. Only one of positive length counts.
abbrev pub tls_host : Host → Option (ℕ × ℕ)
tls_host t = elim t.hs [ none ↦ none | some h ↦ some (h, t.len) ]

abbrev pub http_host : Request → Option (ℕ × ℕ)
http_host r = elim r.hs [
  | none ↦ none
  | some h ↦ if ltb_ℤ (pos 0) r.len then some (h, pos_part r.len) else none
]

unfoldable pub host_of : Bytes → ℕ → Option (Option (ℕ × ℕ))
host_of buf n = do
  t ← parse_tls buf n
  if t.len == 0 then (do r ← parse_http false buf n; some (http_host r)) else some (tls_host t)

abbrev pub is_found : Option Elem → Bool
is_found none = false
is_found (some v) = true

-- What find_dp reads of the connection: the group that it starts from, and what was detected.
pub record Seeker : Type 0 where
  pub init : Option ℕ
  pub detect : ℕ
  pub bytes : Option (Bytes × ℕ)

abbrev pub is_init : Option ℕ → Group → Bool
is_init none g = false
is_init (some id) g = g.id == id

module _ (find : Pool → Elem → Option Elem) where
  unfoldable pub mem_get : Pool → Bytes → ℕ → Option Elem
  mem_get pool str len = find pool (record { len = len; body = str })

  unfoldable pub check_host : Pool → Bytes → ℕ → Option Bool
  check_host hosts buf n = do
    host ← host_of buf n
    elim host [
      | none ↦ some false
      | some (h, len) ↦ some (short_enough (mem_get hosts (drop h buf) len) len)
    ]

  unfoldable pub check_ip : Pool → Addr → Bool
  check_ip ipset dst =
      if is_inet dst.family
      then is_found (mem_get ipset dst.v4 (4 * 8))
      else is_found (mem_get ipset dst.v6 (16 * 8))

  abbrev pub check_ipset : Option Pool → Addr → Bool
  check_ipset none dst = true
  check_ipset (some ipset) dst = check_ip ipset dst

  unfoldable pub check_l34 : Group → Sock → Addr → Bool
  check_l34 g st dst =
      not (has g.proto is_udp && is_stream st)
      && not (has g.proto is_tcp && not (is_stream st))
      && not (
          has g.proto is_ipv4
          && not (is_inet dst.family)
          && not (same_list (take 12 dst.v6) mapped_prefix))
      && check_port g.pf0 g.pf1 dst.port
      && check_ipset g.ipset dst

  -- The two tests of find_dp that read the first bytes of a connection; without bytes they pass.
  unfoldable pub check_data : Group → Option (Bytes × ℕ) → Option Bool
  check_data g none = some true
  check_data g (some (buf, n)) = do
    proto ← if g.proto == 0 then some true else check_proto_tcp g.proto buf n
    if proto
        then elim g.hosts [ none ↦ some true | some hosts ↦ check_host hosts buf n ]
        else some false

  unfoldable pub suits : Seeker → Addr → Group → Word → Option Bool
  suits c dst g mask =
      if not (meets g.bit mask)
        && (is_init c.init g || g.detect == 0 || has c.detect g.detect)
        && check_l34 g stream dst
      then check_data g c.bytes
      else some false

  -- `rest` is the list of groups from `client->dp` on, empty if that is null.
  unfoldable pub find_dp :
      Word → List Group → List Group → Seeker → Addr → Word → Option (Option Group × Word)
  find_dp full gs rest c dst mask =
      find_loop (λ g. g.bit) full (suits c dst) (length gs + length rest + 1) gs rest mask
