-- ===== src/Proxy/Safe.antt =====
-- The readers of addresses in proxy.c stay inside the request.
pub mod Names
use byedpi.Prelude.{
  ℕ, zero, suc, ◌+◌, ◌-◌, ◌≤◌, ◌<◌, ◌≡◌, ◌≢◌, ◌⊎◌, refl, sym, ap, ◌∙◌, inl, inr, Bool, true, false,
  not, ◌&&◌, ◌||◌, Option, none, some, List, [], ◌∷◌, Bytes, arith, length, read, load, byte_at,
  read-byte_at, slice, load-slice, ltb, leb, ◌==◌, ◌!=◌, ◌>>=◌, if◌then◌else◌, if-cases, Bool-cases,
  Option-cases, Returns, Returns->>=,
}
use byedpi.Prelude.Int.{ℤ, pos, negsuc, pos_part, ◌-ℤ◌, ltb_ℤ}
use byedpi.Packets.Tls.{Host, parse_tls}
use byedpi.Packets.Tls.Safe.{HostWithin, parse_tls-Returns}
use byedpi.Packets.Http.{Request, parse_http}
use byedpi.Packets.Http.Safe.{RequestWithin, parse_http-Returns}
use byedpi.Net.{Addr}
use byedpi.Proxy.{
  Settings, failed, er_gen, er_host, er_atp, port_of, offers_none, auth_socks5, str_end, with_port,
  s5_size, s5_port, s5_name, s5_v4, s5_v6, s5_any, s5_get_addr, found_host, http_get_addr,
  tls_get_addr, s4_name, s4_get_addr,
}

-- The types of an address: IPv4, a name, IPv6.
abbrev pub Known : ℕ → Type 0
Known t = (t ≡ 1) ⊎ (t ≡ 3) ⊎ (t ≡ 4)

-- A length that is returned lies within the request and past its head.
abbrev pub Bounded : ℕ → ℤ × Addr → Type 0
Bounded n (pos o, a) = (7 ≤ o) × (o ≤ n)
Bounded n (negsuc k, a) = Unit

with_port-Bounded :
    (lookup : Bytes → Option Addr) (n o k : ℕ) (name : Option Bytes) (a : Addr) (port : Bytes)
    → 7 ≤ o
    → o ≤ n
    → Bounded n (with_port lookup (pos o) (negsuc k) name a port)
unfolding with_port
with_port-Bounded lookup n o k none a port h l = (h, l)
with_port-Bounded lookup n o k (some x) a port h l = go (lookup x)
  where
    go :
        (r : Option Addr)
        → Bounded n (elim r [
          | none ↦ (negsuc k, a)
          | some found ↦ (pos o, record found { port = port_of port })
        ])
    go none = tt
    go (some x) = (h, l)

module _ (lookup : Bytes → Option Addr) (set : Settings) (buf : Bytes) (n : ℕ) (a : Addr)
    (fits : n ≤ length buf) where
  s5_port-slice : (o : ℕ) → 2 ≤ o → o ≤ n → s5_port lookup buf 0 o ≡ some (slice buf (0 + o - 2) 2)
  unfolding s5_port
  s5_port-slice o h l =
      if-cases (λ r. r ≡ some (slice buf (0 + o - 2) 2)) (ltb (0 + o) 2) none
        (load buf (0 + o - 2) 2) (λ y. absurd (ground arith))
        (λ m. load-slice buf (0 + o - 2) 2 (omega arith))

  s5_v4-Returns : 10 ≤ n → Returns (s5_v4 lookup buf 0 10 a) (Bounded n)
  unfolding s5_v4
  s5_v4-Returns h =
      rw (load-slice buf (0 + 4) 4 (omega arith), s5_port-slice 10 (omega arith) h)
        (_, refl, (omega arith, h))

  s5_v6-Returns : 22 ≤ n → Returns (s5_v6 lookup set buf 0 22 a) (Bounded n)
  unfolding s5_v6
  s5_v6-Returns h =
      if-cases (λ r. Returns r (Bounded n)) (not set.ipv6) _ _ (λ y. (_, refl, tt))
        (λ m.
          rw (load-slice buf (0 + 4) 16 (omega arith), s5_port-slice 22 (omega arith) h)
            (_, refl, (omega arith, h)))

  s5_name-Returns :
      8 ≤ n
      → byte_at buf 4 + 7 ≤ n
      → Returns (s5_name lookup set buf 0 (byte_at buf 4 + 7) a) (Bounded n)
  unfolding s5_name
  s5_name-Returns h l =
      let len = byte_at buf 4 in
      if-cases (λ r. Returns r (Bounded n)) (not set.resolve) _ _ (λ y. (_, refl, tt))
        (λ m.
          rw
            (
              read-byte_at buf (0 + 4) (omega arith),
              load-slice buf (0 + 5) len (omega arith),
              s5_port-slice (len + 7) (omega arith) l,
            )
            (
              _,
              refl,
              if-cases (Bounded n) (ltb len 3) _ _ (λ y. tt)
                  (λ z.
                    with_port-Bounded lookup n (len + 7) 3 (some (slice buf (0 + 5) len)) a
                      (slice buf (0 + (len + 7) - 2) 2) (omega arith) l),
            ))

  abbrev by_type : ℕ → ℕ → Option (ℤ × Addr)
  by_type atp o =
      if ltb n o
      then some (er_gen, a)
      else if atp == 1
      then s5_v4 lookup buf 0 o a
      else if atp == 3
      then s5_name lookup set buf 0 o a
      else if atp == 4
      then s5_v6 lookup set buf 0 o a
      else s5_any lookup buf 0 o a

  rest-Returns :
      8 ≤ n → (atp : ℕ) → Known atp → Returns (s5_size lookup buf 0 atp >>= by_type atp) (Bounded n)
  unfolding s5_size
  rest-Returns h atp (inl k) = rw k (
      if-cases (λ r. Returns r (Bounded n)) (ltb n 10) _ _ (λ y. (_, refl, tt))
        (λ m. s5_v4-Returns (ground arith)))
  rest-Returns h atp (inr (inl k)) =
      rw (k, read-byte_at buf (0 + 4) (omega arith))
        (if-cases (λ r. Returns r (Bounded n)) (ltb n (byte_at buf 4 + 7)) _ _ (λ y. (_, refl, tt))
          (λ m. s5_name-Returns h (ground arith)))
  rest-Returns h atp (inr (inr k)) = rw k (
      if-cases (λ r. Returns r (Bounded n)) (ltb n 22) _ _ (λ y. (_, refl, tt))
        (λ m. s5_v6-Returns (ground arith)))

  -- A request of a known type is read without a fault, and its length is within it.
  pub s5_get_addr-Returns :
      Known (byte_at buf 3) → Returns (s5_get_addr lookup set buf 0 n a) (Bounded n)
  unfolding s5_get_addr
  s5_get_addr-Returns k =
      if-cases (λ r. Returns r (Bounded n)) (ltb n 8) _ _ (λ y. (_, refl, tt))
        (λ m.
          let h : 8 ≤ n = ground arith in
          rw (read-byte_at buf (0 + 3) (omega arith)) (rest-Returns h (byte_at buf 3) k))
