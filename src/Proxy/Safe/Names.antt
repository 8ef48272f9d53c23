-- ===== src/Proxy/Safe/Names.antt =====
-- The readers of names in proxy.c, and of the methods of SOCKS5, stay inside the request.
use byedpi.Prelude.{
  ℕ, zero, suc, ◌+◌, ◌-◌, ◌≤◌, ◌<◌, ◌≡◌, ◌⊎◌, refl, sym, ◌∙◌, inl, inr, true, false, not, ◌&&◌,
  ◌||◌, Option, none, some, [], ◌∷◌, Bytes, arith, length, byte_at, read-byte_at, slice,
  length-slice, load-slice, ltb, leb, ◌==◌, ◌!=◌, ◌>>=◌, if-cases, Returns,
}
use byedpi.Prelude.Int.{ℤ, pos, negsuc, pos_part, ◌-ℤ◌, ltb_ℤ}
use byedpi.Packets.Tls.{Host}
use byedpi.Packets.Tls.Safe.{HostWithin, parse_tls-Returns}
use byedpi.Packets.Http.{Request}
use byedpi.Packets.Http.Safe.{RequestWithin, parse_http-Returns}
use byedpi.Net.{Addr}
use byedpi.Proxy.{
  Settings, offers_none, auth_socks5, str_end, found_host, set_port, http_get_addr, tls_get_addr,
  s4_name, s4_get_addr,
}

-- It ends without a fault.
abbrev pub Fine : {A : Type 0} → Option A → Type 0
Fine m = Returns m (λ _. Unit {0})

fine : {A : Type 0} (a : A) → Fine (some a)
fine a = (a, refl, tt)

offers_none-Fine : (buf : Bytes) (i n : ℕ) → i + n ≤ length buf → Fine (offers_none buf i n)
unfolding offers_none
offers_none-Fine buf i zero h = fine false
offers_none-Fine buf i (suc n) h = rw (read-byte_at buf i (omega arith)) (
    if-cases Fine (byte_at buf i == 0) (some true) (offers_none buf (i + 1) n) (λ y. fine true)
      (λ m. offers_none-Fine buf (i + 1) n (omega arith)))

pub auth_socks5-Fine : (buf : Bytes) (n : ℕ) → n ≤ length buf → Fine (auth_socks5 buf n)
unfolding auth_socks5
auth_socks5-Fine buf n h =
    if-cases Fine (leb n 2) _ _ (λ y. fine _)
      (λ m.
        let big : 2 < n = ground arith in
        let (ok, e, u) = offers_none-Fine buf 2 (n - 2) (omega arith) in
        rw (read-byte_at buf 1 (omega arith), e)
          (if-cases Fine (byte_at buf 1 != n - 2) _ _ (λ y. fine _) (λ z. fine _)))

sub_pos : (e h k : ℕ) → pos e -ℤ pos h ≡ pos k → h + k ≡ e
unfolding ◌-ℤ◌
sub_pos e h k q = ground arith

pos_inj : (a b : ℕ) → pos a ≡ pos b → a ≡ b
pos_inj a b q = ground arith

part_le : (a b : ℕ) → (pos_part (pos a -ℤ pos b) ≡ 0) ⊎ (b + pos_part (pos a -ℤ pos b) ≡ a)
unfolding ◌-ℤ◌
part_le a b = ground arith

str_end-Returns :
    (buf : Bytes) (i j : ℕ)
    → i ≤ j
    → j < length buf
    → byte_at buf j ≡ 0
    → Returns (str_end buf i) (λ k. (i ≤ k) × (k ≤ j))
unfolding str_end
str_end-Returns [] i j h l z = absurd (omega arith)
str_end-Returns (c ∷ cs) zero zero h l z = rw z (0, refl, (omega arith, omega arith))
str_end-Returns (c ∷ cs) zero (suc j) h l z =
    if-cases (λ r. Returns r (λ k. (0 ≤ k) × (k ≤ suc j))) (c == 0) _ _
      (λ y. (0, refl, (omega arith, omega arith)))
      (λ m.
        let (k, e, (a, b)) = str_end-Returns cs 0 j (omega arith) (omega arith) z in
        rw e (k + 1, refl, (omega arith, omega arith)))
str_end-Returns (c ∷ cs) (suc i) zero h l z = absurd (omega arith)
str_end-Returns (c ∷ cs) (suc i) (suc j) h l z =
    let (k, e, (a, b)) = str_end-Returns cs i j (omega arith) (omega arith) z in
    rw e (k + 1, refl, (omega arith, omega arith))

module _ (lookup : Bytes → Option Addr) (buf : Bytes) where
  -- A name that was found lies in the request.
  Within : Option ℕ → ℤ → Type 0
  Within none len = Unit
  Within (some i) len = (k : ℕ) → len ≡ pos k → i + k ≤ length buf

  found_host-Fine :
      (h : Option ℕ) (len : ℤ) (a : Addr) → Within h len → Fine (found_host lookup buf h len a)
  unfolding found_host Within
  found_host-Fine none len a w = fine _
  found_host-Fine (some i) (negsuc k) a w =
      if-cases Fine (ltb_ℤ (negsuc k) (pos 3) || ltb_ℤ (pos 255) (negsuc k)) _ _ (λ y. fine _)
        (λ m. absurd (ground arith))
  found_host-Fine (some i) (pos k) a w =
      if-cases Fine (ltb_ℤ (pos k) (pos 3) || ltb_ℤ (pos 255) (pos k)) _ _ (λ y. fine _)
        (λ m. rw (load-slice buf i k (w k refl)) (fine _))

  module _ (n : ℕ) (a : Addr) (fits : n ≤ length buf) where
    pub http_get_addr-Fine : Fine (http_get_addr lookup buf n a)
    unfolding http_get_addr Within
    http_get_addr-Fine =
        let (r, e, w) = parse_http-Returns true buf n fits in
        let (x, e', u) = found_host-Fine r.hs r.len a (within r w) in rw (e, e') (fine _)
      where
        within : (r : Request) → RequestWithin n r → Within r.hs r.len
        within r (inl (z, q)) = rw q tt
        within r (inr (h, e, q, l, m, k)) = rw q (λ k' s. omega (arith, sub_pos e h k' (sym l ∙ s)))

    pub tls_get_addr-Fine : (set : Settings) → Fine (tls_get_addr lookup set buf n a)
    unfolding tls_get_addr Within
    tls_get_addr-Fine set =
        let (r, e, w) = parse_tls-Returns buf n fits in
        rw e (
          if-cases Fine (ltb r.len 3 || ltb 255 r.len) _ _ (λ y. fine _)
            (λ m.
              if-cases (λ o. Fine (o >>= λ x. some (set_port lookup 443 x))) set.resolve _ _
                (λ y.
                  let (x, e', u) = found_host-Fine r.hs (pos r.len) a (within r w) in
                  rw e' (fine _))
                (λ z. fine _)))
      where
        within : (r : Host) → HostWithin n r → Within r.hs (pos r.len)
        within r (inl (z, q)) = rw q tt
        within r (inr (o, q, l, m)) = rw q (λ k s. omega (arith, pos_inj r.len k s))

    s4_name-Fine :
        (set : Settings) → 9 ≤ n → (port : Bytes) → Fine (s4_name lookup set buf n a port)
    unfolding s4_name
    s4_name-Fine set h port = rw (read-byte_at buf (n - 1) (omega arith)) (
        if-cases Fine (not set.resolve || byte_at buf (n - 1) != 0) _ _ (λ y. fine _)
          (λ m.
            let (k, e, (l, u)) =
              str_end-Returns buf 8 (n - 1) (omega arith) (omega arith) (ground arith) in
            rw e (
              if-cases Fine
                (ltb_ℤ (pos n -ℤ pos (k + 2)) (pos 3) || ltb_ℤ (pos 255) (pos n -ℤ pos (k + 2))) _ _
                (λ y. fine _)
                (λ z.
                  rw
                    (load-slice buf (k + 1) (pos_part (pos n -ℤ pos (k + 2)))
                      (omega (arith, part_le n (k + 2))))
                    (fine _)))))

    pub s4_get_addr-Fine : (set : Settings) → Fine (s4_get_addr lookup set buf n a)
    unfolding s4_get_addr
    s4_get_addr-Fine set =
        if-cases Fine (ltb n 9) _ _ (λ y. fine _)
          (λ m.
            let long : 9 ≤ n = ground arith in
            let l4 : length (slice buf 4 4) ≡ 4 = length-slice buf 4 4 (omega arith) in
            rw
              (
                read-byte_at buf 1 (omega arith),
                load-slice buf 2 2 (omega arith),
                load-slice buf 4 4 (omega arith),
                read-byte_at (slice buf 4 4) 0 (omega (arith, l4)),
                read-byte_at (slice buf 4 4) 1 (omega (arith, l4)),
                read-byte_at (slice buf 4 4) 2 (omega (arith, l4)),
              )
              (if-cases Fine (byte_at buf 1 != 1) _ _ (λ y. fine _)
                (λ z.
                  let ip = slice buf 4 4 in
                  if-cases Fine (byte_at ip 0 == 0 && byte_at ip 1 == 0 && byte_at ip 2 == 0) _ _
                    (λ y. s4_name-Fine set long (slice buf 2 2)) (λ w. fine _))))
