-- ===== src/Options/Addresses/Fit.antt =====
-- The elements of parse_ipset hold all of their bits.
use byedpi.Prelude.{
  ℕ, zero, suc, ◌+◌, ◌-◌, ◌*◌, ◌/◌, ◌%◌, ◌≤◌, ◌<◌, ◌≡◌, ◌≢◌, refl, sym, ap, ◌∙◌, ◌||◌, true, false,
  Option, none, some, List, [], ◌∷◌, ◌++◌, Bytes, arith, read-byte_at, byte_at, store-overwrite,
  overwrite, load-slice, slice, length-slice, length, length-append, length-take, ◌==◌, ◌!=◌,
  if◌then◌else◌, ◌>>=◌, if-cases, Returns,
}
use byedpi.Prelude.Int.{ℤ, pos, negsuc, ◌-ℤ◌}
use byedpi.Prelude.Ctype.{is_space, is_digit, skip_space, scan_digits, strtol10}
use byedpi.Mpool.{Elem}
use byedpi.Packets.Http.Scan.{Hit, memchr-Returns, scan_digits-Returns}
use byedpi.Options.Hosts.{is_break}
use byedpi.Options.Addresses.{
  InetPton, whole_or, addressed_by, read_ip, cut_at, parse_ip, elem_of, end_ip, ipset_loop,
  parse_ipset,
}

-- On a text with a 0 at `stop`, strtol stays in front of it.
skip_space-Returns :
    (fuel : ℕ) (buf : Bytes) (at stop : ℕ)
    → at ≤ stop
    → stop < length buf
    → stop < at + fuel
    → byte_at buf stop ≡ 0
    → Returns (skip_space fuel buf at) (λ s. s ≤ stop)
unfolding skip_space is_space
skip_space-Returns zero buf at stop h k l z = absurd (omega arith)
skip_space-Returns (suc fuel) buf at stop h k l z = rw (read-byte_at buf at (omega arith)) (
    if-cases (λ r. Returns r (λ s. s ≤ stop)) (is_space (byte_at buf at)) _ _
      (λ y.
        let apart : at ≢ stop =
          λ q. absurd (space_end (byte_at buf at) y (ap (byte_at buf) q ∙ z)) in
        skip_space-Returns fuel buf (at + 1) stop (omega arith) k (omega arith) z)
      (λ n. (at, refl, h)))
  where
    space_end : (c : ℕ) → is_space c ≡ true → c ≡ 0 → ⊥
    space_end c y q = ground arith

not_digit : (c : ℕ) → c ≡ 0 → is_digit c ≡ false
unfolding is_digit
not_digit c z = ground arith

strtol10-Ends :
    (buf : Bytes) (at stop : ℕ)
    → at ≤ stop
    → stop < length buf
    → byte_at buf stop ≡ 0
    → Returns (strtol10 buf at) (λ _. Unit {0})
unfolding strtol10
strtol10-Ends buf at stop h k z =
    let (s, e, l) = skip_space-Returns (suc (length buf)) buf at stop h k (omega arith) z in
    rw (e, read-byte_at buf s (omega arith))
      (if-cases
        (λ first.
          Returns {A = ℤ × ℕ}
            (scan_digits (suc (length buf)) buf first 0 >>= λ r. some (
              if r.1 == first
              then (pos 0, at)
              else if byte_at buf s == b'-'
              then (pos 0 -ℤ pos r.0, r.1)
              else (pos r.0, r.1)))
            (λ _. Unit {0}))
        (byte_at buf s == b'-' || byte_at buf s == b'+') (s + 1) s
        (λ y.
          let apart : s ≢ stop =
            λ q. absurd (sign_end (byte_at buf s) y (ap (byte_at buf) q ∙ z)) in
          digits (s + 1) (omega arith) _)
        (λ n. digits s l _))
  where
    sign_end : (c : ℕ) → (c == b'-' || c == b'+') ≡ true → c ≡ 0 → ⊥
    sign_end c y q = ground arith

    digits :
        (first : ℕ)
        → first ≤ stop
        → (f : ℕ × ℕ → ℤ × ℕ)
        → Returns (scan_digits (suc (length buf)) buf first 0 >>= λ r. some (f r)) (λ _. Unit {0})
    digits first l f =
        let (r, e, _) =
          scan_digits-Returns (suc (length buf)) buf first 0 stop l k (omega arith)
            (not_digit (byte_at buf stop) z) in
        rw e (f r, refl, tt)

-- An address with its bits: none, or all within the bytes.
abbrev pub Fits : ℕ × Bytes → Type 0
Fits (bits, out) = bits ≤ 8 * length out

abbrev pub Holds : List Elem → Type 0
Holds [] = Unit
Holds (e ∷ es) = (0 < e.len) × (e.len ≤ 8 * length e.body) × (length e.body ≤ 16) × Holds es

-- The sizes of the two kinds of address.
pub record Sizes (ip : InetPton) : Type 0 where
  pub four : (s a : Bytes) → ip.inet4 s ≡ some a → length a ≡ 4
  pub sixteen : (s a : Bytes) → ip.inet6 s ≡ some a → length a ≡ 16

whole_bytes : (bits : ℕ) → bits ≤ 8 * (bits / 8 + (if bits % 8 != 0 then 1 else 0))
whole_bytes bits = ground arith

last_zero : (text : Bytes) → byte_at (text ++ (0 ∷ [])) (length text) ≡ 0
last_zero [] = refl
last_zero (c ∷ cs) = last_zero cs

elem_of-Holds : (ip : InetPton) (r : ℕ × Bytes) → Fits r → length r.1 ≤ 16 → Holds (elem_of ip r)
elem_of-Holds ip (bits, out) f l =
    let n = bits / 8 + (if bits % 8 != 0 then 1 else 0) in
    if-cases Holds (bits == 0) _ _ (λ _. tt)
      (λ m. (
        ground arith,
        omega (arith, length-take n out, whole_bytes bits, f),
        omega (arith, length-take n out),
        tt,
      ))

Holds-append : (es fs : List Elem) → Holds es → Holds fs → Holds (es ++ fs)
Holds-append [] fs h k = k
Holds-append (e ∷ es) fs (a, b, c, h) k = (a, b, c, Holds-append es fs h k)

module _ (ip : InetPton) (sz : Sizes ip) where
  abbrev Good : ℕ × Bytes → Type 0
  Good r = Fits r × (length r.1 ≤ 16)

  whole_or-Good :
      (bits len : ℕ) (a : Bytes) → length a ≡ len → len ≤ 16 → Good (whole_or bits len a)
  whole_or-Good bits len a e l = ground arith

  read_ip-Good : (str : Bytes) (bits : ℕ) → Good (read_ip ip str bits)
  unfolding read_ip
  read_ip-Good str bits = go (ip.inet4 _) (ip.inet6 _) (sz.four _) (sz.sixteen _)
    where
      go :
          (x y : Option Bytes)
          → ((a : Bytes) → x ≡ some a → length a ≡ 4)
          → ((a : Bytes) → y ≡ some a → length a ≡ 16)
          → Good (addressed_by ip bits x y)
      go (some a) y f g = whole_or-Good bits 4 a (f a refl) (omega arith)
      go none (some b) f g = whole_or-Good bits 16 b (g b refl) (omega arith)
      go none none f g = (omega arith, omega arith)

  -- A text with its 0 behind it.
  parse_ip-Good : (text : Bytes) → Returns (parse_ip ip (text ++ (0 ∷ [])) (length text + 1)) Good
  unfolding parse_ip
  parse_ip-Good text =
      let str = text ++ (0 ∷ []) in
      let l = length-append text (0 ∷ []) in
      let (sep, e, hit) =
        memchr-Returns (length text + 1) str 0 b'/' (length text + 1) (omega arith)
          (omega (arith, l)) in
      rw e (cut sep hit)
    where
      slash : (c : ℕ) → c ≡ b'/' → c ≡ 0 → ⊥
      slash c p q = omega arith

      number :
          (str : Bytes) (n : ℤ)
          → Good
              (elim n [ negsuc k ↦ (0, []) | pos n ↦ if n == 0 then (0, []) else read_ip ip str n ])
      number str (negsuc k) = (omega arith, omega arith)
      number str (pos n) =
          if-cases Good (n == 0) _ _ (λ _. (omega arith, omega arith)) (λ _. read_ip-Good str n)

      cut :
          (sep : Option ℕ)
          → Hit (text ++ (0 ∷ [])) 0 b'/' (length text + 1) sep
          → Returns (cut_at ip (text ++ (0 ∷ [])) sep) Good
      cut none hit = (_, refl, read_ip-Good (text ++ (0 ∷ [])) 0)
      cut (some i) (a, b, c) =
          let str = text ++ (0 ∷ []) in
          let l = length-append text (0 ∷ []) in
          let apart : i ≢ length text =
            λ q. slash (byte_at str i) c (ap (byte_at str) q ∙ last_zero text) in
          let ((n, end), e, _) =
            strtol10-Ends str (i + 1) (length text) (omega arith) (omega (arith, l))
              (last_zero text) in
          rw (e, store-overwrite str i (0 ∷ []) (omega (arith, l)))
            (_, refl, number (overwrite str i (0 ∷ [])) n)

  end_ip-Holds :
      (buffer : Bytes) (s e : ℕ) (again : ℕ → Option (List Elem))
      → s ≤ e + 1
      → e ≤ length buffer
      → ((s' : ℕ) → s' ≤ e + 1 → Returns (again s') Holds)
      → s ≤ e
      → Returns (end_ip ip buffer s e again) Holds
  end_ip-Holds buffer s e again h k next l =
      if-cases (λ r. Returns r Holds) (s == e) _ _ (λ y. next (s + 1) (omega arith))
        (λ m.
          let n = e - s in
          let text = slice buffer s n in
          let len : length text ≡ n = length-slice buffer s n (omega arith) in
          let (r, q, (f, g)) = parse_ip-Good text in
          let (rest, q', w) = next (e + 1) (omega arith) in
          rw
            (
              load-slice buffer s n (omega arith),
              sym (ap (λ k. parse_ip ip (text ++ (0 ∷ [])) (k + 1)) len),
              q,
              q',
            )
            (_, refl, Holds-append (elem_of ip r) rest (elem_of-Holds ip r f g) w))

  ipset_loop-Holds :
      (left : ℕ) (buffer : Bytes) (s e : ℕ)
      → e + left ≤ length buffer
      → s ≤ e
      → Returns (ipset_loop ip left buffer s e) Holds
  unfolding ipset_loop
  ipset_loop-Holds zero buffer s e h l =
      end_ip-Holds buffer s e (λ s. some []) (omega arith) (omega arith) (λ s' k. ([], refl, tt)) l
  ipset_loop-Holds (suc left) buffer s e h l = rw (read-byte_at buffer e (omega arith)) (
      if-cases (λ r. Returns r Holds) (is_break (byte_at buffer e)) _ _
        (λ _.
          end_ip-Holds buffer s e (λ s. ipset_loop ip left buffer s (e + 1)) (omega arith)
            (omega arith)
            (λ s' k. ipset_loop-Holds left buffer s' (e + 1) (omega arith) (omega arith)) l)
        (λ _. ipset_loop-Holds left buffer s (e + 1) (omega arith) (omega arith)))

  -- If inet_pton gives addresses of 4 and of 16 bytes, parse_ipset ends and reads only inside its
  -- text, whatever it holds; each element that it adds has at least one bit, no more than its data
  -- holds, and 16 bytes at most.
  pub parse_ipset-Holds : (buffer : Bytes) → Returns (parse_ipset ip buffer (length buffer)) Holds
  unfolding parse_ipset
  parse_ipset-Holds buffer = ipset_loop-Holds (length buffer) buffer 0 0 (omega arith) (omega arith)
