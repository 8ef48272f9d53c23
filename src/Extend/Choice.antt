-- ===== src/Extend/Choice.antt =====
-- What find_dp chooses.
use byedpi.Prelude.{
  ℕ, ◌+◌, ◌-◌, bit_and, ap, ◌∙◌, ◌≤◌, ◌<◌, ◌≡◌, ◌↔◌, ◌⊎◌, ◌&&◌, ◌||◌, not, refl, inl, inr, Bool,
  true, false, Option, none, some, List, Bytes, length, arith, has, Returns, Bool-cases,
  Option-cases, ◌==◌, if◌then◌else◌,
}
use byedpi.Prelude.Word.{Word, same_word, meets, Within, meets-Within}
use byedpi.Net.{Addr, htons}
use byedpi.Mpool.{Elem}
use byedpi.Packets.Tls.{is_tls_chello}
use byedpi.Packets.Tls.Safe.{parse_tls-Returns, is_tls_hello-Returns}
use byedpi.Packets.Http.Safe.{parse_http-Returns}
use byedpi.Packets.Http.Scan.{is_http-Returns}
use byedpi.Extend.Groups.{AllIn, In, Complete, Found, find_loop-Found}
use byedpi.Extend.Filter.{
  Pool, Group, stream, check_round, check_proto_tcp, check_port, host_of, check_host, check_l34,
  check_data, Seeker, is_init, suits, find_dp, proto_http, proto_https,
}

-- With no bounds a group takes the first round, and else the rounds within them.
pub check_round_iff :
    (nr0 nr1 r : ℕ)
    → (check_round nr0 nr1 r ≡ true) ↔ (((nr1 ≡ 0) × (r ≤ 1)) ⊎ ((nr0 ≤ r) × (r ≤ nr1)))
unfolding check_round
check_round_iff nr0 nr1 r = ground arith

-- A whitelist of one port, which is kept in network order, lets exactly that port pass.
pub check_port_single :
    (v port : ℕ)
    → 0 < v
    → v < 65536
    → port < 65536
    → (check_port (htons v) (htons v) (htons port) ≡ true) ↔ (port ≡ v)
unfolding check_port htons
check_port_single v port z h k = ground arith

check_proto_tcp-Returns :
    (proto : ℕ) (buf : Bytes) (n : ℕ)
    → n ≤ length buf
    → Returns (check_proto_tcp proto buf n) (λ _. Unit {0})
unfolding check_proto_tcp is_tls_chello
check_proto_tcp-Returns proto buf n h =
    let (tls, e, _) = is_tls_hello-Returns 1 buf n h in
    elim (Bool-cases (proto - bit_and proto 16 == 0)) [
      | inl y ↦ rw y (true, refl, tt)
      | inr z ↦ rw z (
          let (http, e', _) = is_http-Returns buf n h in
          elim (Bool-cases (has proto proto_http)) [
            | inl w ↦
                rw (w, e')
                  (elim (Bool-cases http) [ inl v ↦ rw v (true, refl, tt) | inr v ↦ rw v (last e) ])
            | inr w ↦ rw w (last e)
          ])
    ]
  where
    last :
        {tls : Bool}
        → is_tls_chello buf n ≡ some tls
        → Returns
            (if has proto proto_https then is_tls_chello buf n else some false)
            (λ _. Unit {0})
    last e = elim (Bool-cases (has proto proto_https)) [
      | inl y ↦ rw (y, e) (_, refl, tt)
      | inr z ↦ rw z (false, refl, tt)
    ]

host_of-Returns : (buf : Bytes) (n : ℕ) → n ≤ length buf → Returns (host_of buf n) (λ _. Unit {0})
unfolding host_of
host_of-Returns buf n h =
    let (t, e, _) = parse_tls-Returns buf n h in
    let (r, e', _) = parse_http-Returns false buf n h in
    rw e (elim (Bool-cases (t.len == 0)) [
      | inr z ↦ rw z (_, refl, tt)
      | inl y ↦ rw (y, e') (_, refl, tt)
    ])

check_host-Returns :
    (find : Pool → Elem → Option Elem) (hosts : Pool) (buf : Bytes) (n : ℕ)
    → n ≤ length buf
    → Returns (check_host find hosts buf n) (λ _. Unit {0})
unfolding check_host
check_host-Returns find hosts buf n h =
    let (host, e, _) = host_of-Returns buf n h in
    rw e (elim (Option-cases host) [ inl w ↦ rw w (_, refl, tt) | inr (o, w) ↦ rw w (_, refl, tt) ])

-- The bytes at hand, if any, lie in their buffer.
abbrev pub Fit : Option (Bytes × ℕ) → Type 0
Fit none = Unit
Fit (some (buf, n)) = n ≤ length buf

check_data-Returns :
    (find : Pool → Elem → Option Elem) (g : Group) (bytes : Option (Bytes × ℕ))
    → Fit bytes
    → Returns (check_data find g bytes) (λ _. Unit {0})
unfolding check_data
check_data-Returns find g none h = (true, refl, tt)
check_data-Returns find g (some (buf, n)) h =
    let (p, e, _) = check_proto_tcp-Returns g.proto buf n h in
    elim (Bool-cases (g.proto == 0)) [
      | inl y ↦ rw y rest
      | inr z ↦
          rw (z, e) (elim (Bool-cases p) [ inl y ↦ rw y rest | inr w ↦ rw w (false, refl, tt) ])
    ]
  where
    rest :
        Returns
          (elim g.hosts [ none ↦ some true | some hosts ↦ check_host find hosts buf n ])
          (λ _. Unit {0})
    rest = elim (Option-cases g.hosts) [
      | inl w ↦ rw w (true, refl, tt)
      | inr (hosts, w) ↦ rw w (check_host-Returns find hosts buf n h)
    ]

-- What the code asks of a group apart from the mask.
pub record Passes (find : Pool → Elem → Option Elem) (c : Seeker) (dst : Addr) (g : Group)
    : Type 0 where
  pub detected : (is_init c.init g || g.detect == 0 || has c.detect g.detect) ≡ true
  pub layers : check_l34 find g stream dst ≡ true
  pub bytes : check_data find g c.bytes ≡ some true

suits-Returns :
    (find : Pool → Elem → Option Elem) (c : Seeker) (dst : Addr) (g : Group) (mask : Word)
    → Fit c.bytes
    → Returns
        (suits find c dst g mask)
        (λ b. b ≡ true → (meets g.bit mask ≡ false) × Passes find c dst g)
unfolding suits
suits-Returns find c dst g mask h =
    let (b, e, _) = check_data-Returns find g c.bytes h in
    elim (Bool-cases (
      not (meets g.bit mask)
      && (is_init c.init g || g.detect == 0 || has c.detect g.detect)
      && check_l34 find g stream dst)) [
        | inr z ↦ rw z (false, refl, λ w. cc)
        | inl y ↦
            rw (y, e)
              (
                b,
                refl,
                λ w. (
                  ground arith,
                  record { detected = ground arith; layers = ground arith; bytes = e ∙ ap some w },
                ),
              )
      ]

-- A group of the ring, not tried before, that passes the tests.
abbrev pub Chosen :
    (Pool → Elem → Option Elem)
    → List Group
    → Seeker
    → Addr
    → Word
    → Word
    → Option Group × Word
    → Type 0
Chosen find gs c dst full mask (none, m) = same_word m full ≡ true
Chosen find gs c dst full mask (some g, m) =
    In g gs × (meets g.bit mask ≡ false) × Passes find c dst g

-- Whatever bytes arrive, and wherever in the ring it starts, `find_dp` ends without a fault: it
-- either has tried every group, or returns a group of the ring that was not tried before and
-- passes each of its tests. The bits of the groups must make up the full mask.
pub find_dp-Chosen :
    (find : Pool → Elem → Option Elem) (full : Word) (gs rest : List Group) (c : Seeker)
    (dst : Addr) (mask : Word)
    → Fit c.bytes
    → ((g : Group) → In g rest → In g gs)
    → AllIn (λ (x : Group). x.bit) gs full
    → Complete (λ (x : Group). x.bit) full gs
    → Within mask full
    → Returns (find_dp find full gs rest c dst mask) (Chosen find gs c dst full mask)
unfolding find_dp
find_dp-Chosen find full gs rest c dst mask fit i a k w =
    let (r, e, f) =
      find_loop-Found (λ (x : Group). x.bit) full (suits find c dst) (length gs + length rest + 1)
        gs rest mask (omega arith) i
        (λ g _ m. let (b, e, _) = suits-Returns find c dst g m fit in (b, e, tt)) a k w in
    (r, e, unpack r f)
  where
    unpack :
        (r : Option Group × Word)
        → Found (λ (x : Group). x.bit) full (suits find c dst) gs mask r
        → Chosen find gs c dst full mask r
    unpack (none, m) f = f
    unpack (some g, m) f =
        let (b, e, p) = suits-Returns find c dst g m fit in
        let (fresh, passes) = p (ground (arith, f.1)) in
        (f.0, meets-Within g.bit mask m f.2 fresh, passes)
