-- ===== src/Options/Listen/Answers.antt =====
-- What get_addr of main.c makes of any text.
use byedpi.Prelude.{
  ℕ, zero, suc, ◌+◌, ◌-◌, ◌≤◌, ◌<◌, ◌≡◌, ◌≢◌, ◌*◌, ◌/◌, ◌%◌, ◌⊎◌, inl, inr, refl, true, false,
  Option, none, some, Bytes, arith, byte_at, read-byte_at, load-slice, slice, length, ltb, ◌==◌,
  ◌!=◌, ◌||◌, if-cases, if◌then◌else◌, ◌>>=◌, Returns,
}
use byedpi.Prelude.Int.{ℤ, pos, negsuc}
use byedpi.Prelude.Ctype.{is_digit}
use byedpi.Net.{Addr, Family, inet, inet6, is_inet, htons}
use byedpi.Options.Offsets.{Strtol}
use byedpi.Options.Offsets.Parsed.{Stays}
use byedpi.Options.Listen.Scan.{
  FirstAt, NoneAt, Within, same, differ, strchr-Within, str_end-Within,
}
use byedpi.Options.Listen.{
  Numeric, strchr, opening, bracket, or_at, port_number, given_addr, ported_addr, closing, end_of,
  looked_up, named, get_addr,
}

-- The port of a text from `p` on: the number behind the first `:`, where a digit follows it, which is
-- the rest of the text and between one and 65535. `b` is where the name ends, if the port tells.
abbrev pub PortIn : Strtol → Bytes → ℕ → Option (ℕ × ℕ) → Type 0
PortIn st str p none =
    NoneAt str p b':' ⊎ ((i : ℕ) × FirstAt str p b':' i × (is_digit (byte_at str (i + 1)) ≡ false))
PortIn st str p (some (i, n)) =
    FirstAt str p b':' i
    × (is_digit (byte_at str (i + 1)) ≡ true)
    × ((st.scan str (i + 1)).0 ≡ pos n)
    × (byte_at str (st.scan str (i + 1)).1 ≡ 0)
    × (0 < n)
    × (n ≤ 65535)

abbrev pub HostEnd : Bytes → ℕ → Option (ℕ × ℕ) → Type 0
HostEnd str e none = FirstAt str 0 0 e
HostEnd str e (some (i, n)) = e ≡ i

-- Where the name begins and ends: between the brackets, or from the start to the port or to the end.
abbrev pub HostIn : Bytes → Option (ℕ × ℕ) → ℕ → ℕ → ℕ → Type 0
HostIn str port s e p =
    ((byte_at str 0 ≡ b'[') × (s ≡ 1) × FirstAt str 0 b']' e × (p ≡ e + 1))
    ⊎ ((byte_at str 0 ≢ b'[') × (s ≡ 0) × (p ≡ 0) × HostEnd str e port)

-- The port is the one in the text, or the one from before; the address is the answer for the name, or
-- the one from before where the name is empty.
abbrev pub PortSet : Option (ℕ × ℕ) → Addr → Addr → Type 0
PortSet none addr a = a.port ≡ addr.port
PortSet (some (i, n)) addr a = a.port ≡ htons n

abbrev pub IpSet : Addr → Addr → Family × Bytes → Type 0
IpSet addr a ip =
    (a.family ≡ ip.0)
    × (a.v4 ≡ (if is_inet ip.0 then ip.1 else addr.v4))
    × (a.v6 ≡ (if is_inet ip.0 then addr.v6 else ip.1))

abbrev pub HostSet : Numeric → Bytes → ℕ → ℕ → Addr → Addr → Type 0
HostSet net str s e addr a =
    ((e ≡ s) × (a.family ≡ addr.family) × (a.v4 ≡ addr.v4) × (a.v6 ≡ addr.v6))
    ⊎ ((s < e)
        × ((ip : Family × Bytes) × (net.lookup (slice str s (e - s)) ≡ some ip) × IpSet addr a ip))

abbrev pub Answers : Strtol → Numeric → Bytes → Addr → Option Addr → Type 0
Answers st net str addr none = Unit
Answers st net str addr (some a) =
    (port : Option (ℕ × ℕ)) × (s : ℕ) × (e : ℕ) × (p : ℕ) × HostIn str port s e p
    × PortIn st str p port
    × PortSet port addr a
    × HostSet net str s e addr a

htons-zero : (n : ℕ) → 0 < n → n ≤ 65535 → (htons n == 0) ≡ false
unfolding htons
htons-zero n l h = test (n % 256 * 256 + n / 256 % 256) (λ e. absurd (omega arith))
  where
    test : (x : ℕ) → x ≢ 0 → (x == 0) ≡ false
    test x d = ground arith

module _ (str : Bytes) (stop : ℕ) (l : stop < length str) (z : byte_at str stop ≡ 0) where
  -- e, s and p as the bracket has them.
  abbrev Opens : Option (Option ℕ × ℕ × ℕ) → Type 0
  Opens none = Unit
  Opens (some (none, s, p)) = (byte_at str 0 ≢ b'[') × (s ≡ 0) × (p ≡ 0)
  Opens (some (some i, s, p)) =
      (byte_at str 0 ≡ b'[') × (s ≡ 1) × (p ≡ i + 1) × (0 < i) × (i < stop) × FirstAt str 0 b']' i

  opening-Opens : Returns (opening str) Opens
  unfolding opening
  opening-Opens = rw (read-byte_at str 0 (omega arith)) (
      if-cases (λ o. Returns o Opens) (byte_at str 0 == b'[') _ _
        (λ y.
          let (o, e, w) =
            strchr-Within str stop l z (length str) 0 b']' (omega arith) (omega arith)
              (λ e. absurd (omega arith)) in
          rw e (bracket o, refl, behind (same (byte_at str 0) b'[' y) o w))
        (λ n. (_, refl, (differ (byte_at str 0) b'[' n, refl, refl))))
    where
      behind :
          byte_at str 0 ≡ b'[' → (o : Option ℕ) → Within str stop l z 0 b']' o → Opens (bracket o)
      behind y none w = tt
      behind y (some zero) (a, (b, c, d)) = absurd (apart y c)
        where
          apart : byte_at str 0 ≡ b'[' → byte_at str 0 ≡ b']' → ⊥
          apart p q = omega arith
      behind y (some (suc i)) (a, w) = (y, refl, refl, omega arith, a, w)

  abbrev Ported : ℤ × ℕ → Option ℕ → Type 0
  Ported x none = Unit
  Ported x (some m) =
      (n : ℕ) × (x.0 ≡ pos n) × (byte_at str x.1 ≡ 0) × (0 < n) × (n ≤ 65535) × (m ≡ htons n)

  port_number-Ported : (x : ℤ × ℕ) → x.1 ≤ stop → Returns (port_number str x) (Ported x)
  unfolding port_number
  port_number-Ported (negsuc k, end) h = (none, refl, tt)
  port_number-Ported (pos n, end) h =
      if-cases (λ o. Returns o (Ported (pos n, end))) (n == 0 || ltb 65535 n) _ _
        (λ y. (none, refl, tt))
        (λ m. rw (read-byte_at str end (omega arith)) (
          _,
          refl,
          if-cases (Ported (pos n, end)) (byte_at str end != 0) none (some (htons n)) (λ y. tt)
              (λ e. (n, refl, ground arith, ground arith, ground arith, refl)),
        ))

  -- e and the port afterwards.
  abbrev Told : Option ℕ → Option (ℕ × ℕ) → Option ℕ → ℕ → Type 0
  Told e none e' m = (e' ≡ e) × (m ≡ 0)
  Told e (some (i, n)) e' m = (e' ≡ or_at e i) × (m ≡ htons n) × (0 < n) × (n ≤ 65535) × (i < stop)

  module _ (st : Strtol) (net : Numeric) (u : Stays st) where
    abbrev Closes : ℕ → Option ℕ → Option (Option ℕ × ℕ) → Type 0
    Closes p e none = Unit
    Closes p e (some (e', m)) = (port : Option (ℕ × ℕ)) × PortIn st str p port × Told e port e' m

    closing-Closes :
        (p : ℕ) (e colon : Option ℕ)
        → Within str stop l z p b':' colon
        → Returns (closing st str e colon) (Closes p e)
    unfolding closing
    closing-Closes p e none w = (_, refl, (none, inl w, (refl, refl)))
    closing-Closes p e (some i) (b, w) = rw (read-byte_at str (i + 1) (omega arith)) (
        if-cases (λ o. Returns o (Closes p e)) (is_digit (byte_at str (i + 1))) _ _
          (λ y.
            let (o, q, t) =
              port_number-Ported (st.scan str (i + 1))
                (Stays.stays u str (i + 1) stop (omega arith) l z).1 in
            rw q (_, refl, both y o t))
          (λ n. (_, refl, (none, inr (i, w, n), (refl, refl)))))
      where
        both :
            is_digit (byte_at str (i + 1)) ≡ true
            → (o : Option ℕ) → Ported (st.scan str (i + 1)) o
            → Closes p e (elim o [ none ↦ none | some n ↦ some (or_at e i, n) ])
        both y none t = tt
        both y (some m) (n, a, c, d, h, q) = (some (i, n), (w, y, a, c, d, h), (refl, q, d, h, b))

    -- The end of the name.
    end_of-HostIn :
        (s p : ℕ) (e e' : Option ℕ) (port : Option (ℕ × ℕ)) (m : ℕ)
        → Opens (some (e, s, p))
        → Told e port e' m
        → Returns (end_of str e') (λ x. (s ≤ x) × (x ≤ stop) × HostIn str port s x p)
    end_of-HostIn s p none e' none m (o, a, b) (q, _) =
        let (i, r, (c, f)) =
          str_end-Within str stop l z (length str) 0 (omega arith) (omega arith) in
        rw q (i, r, (omega arith, c, inr (o, a, b, f)))
    end_of-HostIn s p none e' (some (i, n)) m (o, a, b) (q, _, _, _, h) =
        rw q (i, refl, (omega arith, omega arith, inr (o, a, b, refl)))
    end_of-HostIn s p (some k) e' none m (o, a, b, f, h, w) (q, _) =
        rw q (k, refl, (omega arith, omega arith, inl (o, a, w, b)))
    end_of-HostIn s p (some k) e' (some (i, n)) m (o, a, b, f, h, w) (q, _, _, _, _) =
        rw q (k, refl, (omega arith, omega arith, inl (o, a, w, b)))

    abbrev Looked : Addr → ℕ → ℕ → Option Addr → Type 0
    Looked addr s e none = Unit
    Looked addr s e (some a) = HostSet net str s e addr a × (a.port ≡ addr.port)

    given_addr-IpSet :
        (addr : Addr) (ip : Family × Bytes)
        → IpSet addr (given_addr addr ip) ip × ((given_addr addr ip).port ≡ addr.port)
    given_addr-IpSet addr (inet, ip) = ((refl, refl, refl), refl)
    given_addr-IpSet addr (inet6, ip) = ((refl, refl, refl), refl)

    looked_up-Looked :
        (addr : Addr) (s e : ℕ)
        → s ≤ e
        → e ≤ stop
        → Returns (looked_up net str addr s e) (Looked addr s e)
    looked_up-Looked addr s e h k =
        if-cases (λ o. Returns o (Looked addr s e)) (e == s) _ _
          (λ y. (_, refl, (inl (same e s y, refl, refl, refl), refl)))
          (λ n.
            let apart = differ e s n in
            rw (load-slice str s (e - s) (omega arith))
              (_, refl, answer (omega arith) (net.lookup (slice str s (e - s))) refl))
      where
        answer :
            s < e
            → (o : Option (Family × Bytes)) → net.lookup (slice str s (e - s)) ≡ o
            → Looked addr s e (elim o [ none ↦ none | some ip ↦ some (given_addr addr ip) ])
        answer b none q = tt
        answer b (some ip) q = let (i, f) = given_addr-IpSet addr ip in (inr (b, (ip, q, i)), f)

    ported_addr-Set :
        (addr a : Addr) (s e : ℕ) (port : Option (ℕ × ℕ)) (m : ℕ) (i e' : Option ℕ)
        → Told i port e' m
        → Looked addr s e (some a)
        → PortSet port addr (ported_addr m a) × HostSet net str s e addr (ported_addr m a)
    ported_addr-Set addr a s e none m i e' (_, q) (h, f) = rw q (f, h)
    ported_addr-Set addr a s e (some (c, n)) m i e' (_, q, d, b, _) (h, f) =
        rw (q, htons-zero n d b) (refl, h)

    named-Answers :
        (addr : Addr) (s p : ℕ) (e : Option ℕ) (c : Option (Option ℕ × ℕ))
        → Opens (some (e, s, p))
        → Closes p e c
        → Returns (named st net str addr s c) (Answers st net str addr)
    named-Answers addr s p e none o w = (none, refl, tt)
    named-Answers addr s p e (some (e', m)) o (port, d, t) =
        let (x, q, (a, b, h)) = end_of-HostIn s p e e' port m o t in
        let (r, q', k) = looked_up-Looked addr s x a b in rw q (rw q' (_, refl, ported h r k))
      where
        ported :
            {x : ℕ}
            → HostIn str port s x p
            → (r : Option Addr) → Looked addr s x r
            → Answers st net str addr (elim r [ none ↦ none | some a ↦ some (ported_addr m a) ])
        ported h none k = tt
        ported {x} h (some a) k =
            let (f, g) = ported_addr-Set addr a s x port m e e' t k in (port, s, x, p, h, d, f, g)

    searched :
        (addr : Addr) (e : Option ℕ) (s p : ℕ)
        → p ≤ stop
        → Opens (some (e, s, p))
        → Returns {A = Option Addr}
            (strchr (length str) str p b':' >>= λ colon.
              closing st str e colon >>= λ c. named st net str addr s c)
            (Answers st net str addr)
    searched addr e s p h o =
        let (colon, q, w) =
          strchr-Within str stop l z (length str) p b':' h (omega arith)
            (λ e. absurd (omega arith)) in
        let (c, q', k) = closing-Closes p e colon w in rw q (rw q' (named-Answers addr s p e c o k))

    -- On any text with a 0 behind it, get_addr returns and reads only bytes of the text. Where it does not
    -- give up, the port is the number behind the first `:`, behind the brackets where there are some, if a
    -- digit follows it, and else the one from before; and the address is the answer of getaddrinfo for
    -- what is between the brackets or in front of the port, or the one from before where that is empty.
    pub get_addr-Answers :
        (addr : Addr) → Returns (get_addr st net str addr) (Answers st net str addr)
    unfolding get_addr
    get_addr-Answers addr = let (o, e, w) = opening-Opens in rw e (opened o w)
      where
        opened :
            (o : Option (Option ℕ × ℕ × ℕ))
            → Opens o
            → Returns {A = Option Addr}
                (elim o [
                  | none ↦ some none
                  | some (e, s, p) ↦ strchr (length str) str p b':' >>= λ colon.
                      closing st str e colon >>= λ c. named st net str addr s c
                ])
                (Answers st net str addr)
        opened none w = (none, refl, tt)
        opened (some (none, s, p)) (a, b, c) = searched addr none s p (omega arith) (a, b, c)
        opened (some (some i, s, p)) (a, b, c, d, f, g) =
            searched addr (some i) s p (omega arith) (a, b, c, d, f, g)
