-- ===== src/Extend/Connect.antt =====
-- How extend.c gets from an address to a connection: connect_hook with the cache and find_dp,
-- save_hostname, setup_conn, and udp_hook. What create_conn, resp_error and the socket options
-- answer is the caller's.
pub mod Ways
use byedpi.Prelude.{
  ℕ, ◌+◌, ◌&&◌, ◌||◌, not, Bool, true, false, Option, none, some, List, [], ◌∷◌, Bytes, load, ◌==◌,
  if◌then◌else◌, ◌>>=◌,
}
use byedpi.Prelude.Word.{Word}
use byedpi.Net.{Addr}
use byedpi.Mpool.{Elem}
use byedpi.Mpool.Pool.{Item, Kavl}
use byedpi.Packets.Tls.{is_tls_chello}
use byedpi.Extend.Filter.{
  Pool, Group, Seeker, Sock, dgram, host_of, check_l34, check_round, find_dp,
}
use byedpi.Extend.Cache.{Cache, Info, cache_get}

-- struct eval of a client; `dp` is the id of its group, and `buff` its buffer with the lock.
pub record Caller : Type 0 where
  pub dp : Option ℕ
  pub dp_mask : Word
  pub detect : ℕ
  pub buff : Option (Bytes × ℕ)
  pub host : Option Bytes
  pub mark : Bool

-- How a connection is made: not at all, when the first bytes have come, to the address, or through
-- another proxy, which may want SOCKS5.
pub data Way : Type 0 where
  drop_conn delay : Way
  direct : Addr → Way
  through : Addr → Bool → Way

-- params, as far as it is read here: params.dp_full_mask, the list of groups, params.delay_conn, and
-- for each group its cache_ttl and the proxy behind it.
pub record Route : Type 0 where
  pub full : Word
  pub groups : List Group
  pub delay_conn : Bool
  pub cache_ttl : ℕ → ℕ
  pub out : ℕ → Option (Addr × Bool)

-- The list from the group with the id on.
unfoldable pub from_group : List Group → ℕ → List Group
from_group [] i = []
from_group (g ∷ gs) i = let rest = from_group gs i in if g.id == i then g ∷ gs else rest

abbrev pub from_dp : List Group → Option ℕ → List Group
from_dp gs none = []
from_dp gs (some i) = from_group gs i

abbrev pub seeker : Caller → Option (Bytes × ℕ) → Seeker
seeker c bytes = record { init = c.dp; detect = c.detect; bytes = bytes }

-- The host of the first request, where none was kept. A length that is not positive gives none.
unfoldable pub save_hostname : Option Bytes → Bytes → ℕ → Option (Option Bytes)
save_hostname (some h) buf n = some (some h)
save_hostname none buf n = do
  found ← host_of buf n
  elim found [ none ↦ some none | some (h, len) ↦ (do b ← load buf h len; some (some b)) ]

abbrev pub needs_bytes : Group → Bool
needs_bytes g = elim g.hosts [ none ↦ not (g.proto == 0) | some h ↦ true ]

abbrev pub has_bytes : Option (Bytes × ℕ) → Bool
has_bytes none = false
has_bytes (some b) = true

abbrev pub way_out : Route → Group → Addr → Way
way_out p g dst = elim (p.out g.id) [ none ↦ direct dst | some (a, socks5) ↦ through a socks5 ]

-- The end of connect_hook, with the answer of find_dp.
abbrev pub routed : Route → Caller → Addr → Option Group × Word → Way × Caller
routed p c dst (none, mask) = (drop_conn, record c { dp_mask = mask })
routed p c dst (some g, mask) =
    let c' = record c { dp = some g.id; dp_mask = mask } in
    if needs_bytes g && not (has_bytes c.buff) && p.delay_conn
    then (delay, c')
    else (way_out p g dst, c')

module _ {T : Type 0} (k : Kavl T) (find : Pool → Elem → Option Elem) where
  -- What the cache knows of the address.
  abbrev pub recalled : Cache T → Caller → Option Item → Caller
  recalled cache c none = c
  recalled cache c (some e) =
      let i = cache.info e.at in record c { dp = i.dp; dp_mask = i.dp_mask; detect = i.detect }

  abbrev pub recall : Route → Cache T → ℕ → Addr → Caller → Option ℕ → Option (Caller × Cache T)
  recall p cache t dst c (some i) = some (c, cache)
  recall p cache t dst c none = do
    (e, cache') ← cache_get k cache p.cache_ttl t dst
    some (recalled cache' c e, cache')

  unfoldable pub connect_hook :
      Route → Cache T → ℕ → Caller → Addr → Option (Way × Caller × Cache T)
  unfolding from_group
  connect_hook p cache t c dst = do
    (c1, cache') ← recall p cache t dst c c.dp
    r ← find_dp find p.full p.groups (from_dp p.groups c1.dp) (seeker c1 c1.buff) dst c1.dp_mask
    some ((routed p c1 dst r).0, (routed p c1 dst r).1, cache')

module _ (find : Pool → Elem → Option Elem) where
  -- setup_conn, with the answers of set_timeout and pre_desync; whether it returns 0.
  unfoldable pub setup_conn :
      Route → Bool → Bool → Caller → Addr → Bytes → ℕ → Option (Bool × Caller)
  unfolding from_group save_hostname
  setup_conn p timed prepared c dst buf n = do
    (found, mask) ←
        find_dp find p.full p.groups (from_dp p.groups c.dp) (seeker c (some (buf, n))) dst
          c.dp_mask
    elim found [
      | none ↦ some (false, record c { dp_mask = mask })
      | some g ↦ (do
        host ← save_hostname c.host buf n
        mark ← is_tls_chello buf n
        some (
          timed && prepared,
          record c { dp_mask = mask; host = host; mark = mark; dp = some g.id },
        ))
    ]

  -- The first group of udp_hook that waits for no detection and fits the address.
  unfoldable pub udp_group : List Group → Addr → Option Group
  udp_group [] dst = none
  udp_group (g ∷ gs) dst =
      let rest = udp_group gs dst in
      if g.detect == 0 && check_l34 find g dgram dst then some g else rest

-- What udp_hook does with a datagram in a round: none, as it is, or by desync_udp.
pub data Datagram : Type 0 where
  no_group plain_send desync_send : Datagram

abbrev pub by_round : ℕ → Option Group → Datagram
by_round r none = no_group
by_round r (some g) = if check_round g.round0 g.round1 r then desync_send else plain_send

-- `dp` is the group of an earlier datagram.
unfoldable pub udp_hook :
    (Pool → Elem → Option Elem) → List Group → Option Group → ℕ → Addr → Option Group × Datagram
unfolding udp_group
udp_hook find gs (some g) r dst = (some g, by_round r (some g))
udp_hook find gs none r dst = let g = udp_group find gs dst in (g, by_round r g)
