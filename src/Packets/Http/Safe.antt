-- ===== src/Packets/Http/Safe.antt =====
-- parse_http on arbitrary bytes: no access outside the buffer, and every loop ends.
use byedpi.Prelude.{
  ℕ, zero, suc, ◌+◌, ◌-◌, ◌≤◌, ◌<◌, ◌≡◌, ◌⊎◌, ◌||◌, refl, inl, inr, not, Bool, true, false, none,
  some, Option, arith, Bytes, length, byte_at, read-byte_at, Returns, Bool-cases, Option-cases,
  ◌==◌, ◌!=◌, if◌then◌else◌,
}
use byedpi.Prelude.Int.{pos, pos_part, ◌-ℤ◌, ltb_ℤ}
use byedpi.Prelude.Ctype.{is_space, is_digit, to_lower}
use byedpi.Packets.Http.{
  strncasestr, Request, refused, finish_host, split_port, parse_host_line, host_text, parse_http,
}
use byedpi.Packets.Http.Scan.{
  memchr-Returns, find_fold-Returns, is_http-Returns, skip_blanks-Returns, trim_back-Returns,
  back_digits-Returns, strtol10-Returns,
}

-- What a caller of `parse_http` may rely on: no host, or a host that begins and ends inside the
-- first `size` bytes. The end may lie in front of the beginning.
abbrev pub RequestWithin : ℕ → Request → Type 0
RequestWithin size r =
    ((r.len ≡ pos 0) × (r.hs ≡ none))
    ⊎ ((h : ℕ) × (e : ℕ) × (r.hs ≡ some h) × (r.len ≡ pos e -ℤ pos h) × (h ≤ size) × (e ≤ size))

finish_host-Returns :
    (buf : Bytes) (host h_end size : ℕ) (port : Option ℕ)
    → size ≤ length buf
    → host < size
    → 0 < h_end
    → h_end ≤ size
    → Returns (finish_host buf host h_end port) (RequestWithin size)
unfolding finish_host
finish_host-Returns buf host zero size port h k l m = absurd (omega arith)
finish_host-Returns buf host (suc h_end) size port h k l m =
    rw (read-byte_at buf host (omega arith)) (elim (Bool-cases (byte_at buf host == b'[')) [
      | inr n ↦ rw n (_, refl, inr (host, suc h_end, refl, refl, omega arith, omega arith))
      | inl y ↦
          rw (y, read-byte_at buf h_end (omega arith))
            (elim (Bool-cases (byte_at buf h_end != b']')) [
              | inl z ↦ rw z (_, refl, inl (refl, refl))
              | inr z ↦ rw z (_, refl, inr (host + 1, h_end, refl, refl, omega arith, omega arith))
            ])
    ])

digit_no_space : (c : ℕ) → is_digit c ≡ true → is_space c ≡ false
unfolding is_digit is_space
digit_no_space c h = ground arith

split_port-Returns :
    (want : Bool) (buf : Bytes) (host l_end h_end e size : ℕ)
    → size ≤ length buf
    → host < size
    → e < size
    → byte_at buf e ≡ 10
    → l_end ≤ e
    → is_space (byte_at buf (l_end - 1)) ≡ false
    → 0 < h_end
    → h_end < l_end - 1
    → (h_end + 1 ≡ l_end - 1) ⊎ (is_digit (byte_at buf (h_end + 1)) ≡ true)
    → Returns (split_port want buf host l_end h_end) (RequestWithin size)
unfolding split_port
split_port-Returns want buf host l_end h_end e size h k w nl l n m o d =
    let solid : is_space (byte_at buf (h_end + 1)) ≡ false = elim d [
      | inl q ↦ rw q n
      | inr q ↦ digit_no_space (byte_at buf (h_end + 1)) q
    ] in
    let newline : is_digit (byte_at buf e) ≡ false = rw nl (unfold is_digit in refl) in
    let (num, q, _) =
      strtol10-Returns buf (h_end + 1) e (omega arith) (omega arith) solid newline in
    rw (read-byte_at buf h_end (omega arith)) (elim (Bool-cases (byte_at buf h_end != b':')) [
      | inl c ↦ rw c (
          finish_host-Returns buf host l_end size (if want then some 80 else none) h k (omega arith)
            (omega arith))
      | inr c ↦ rw c (elim (Bool-cases want) [
        | inr no_port ↦
            rw no_port (finish_host-Returns buf host h_end size none h k m (omega arith))
        | inl port ↦
            rw (port, q)
              (elim (Bool-cases
                (not (ltb_ℤ (pos 0) num.0) || num.1 != l_end || ltb_ℤ (pos 0xffff) num.0)) [
                  | inl bad ↦ rw bad (refused, refl, inl (refl, refl))
                  | inr good ↦ rw good (
                      finish_host-Returns buf host h_end size (some (pos_part num.0)) h k m
                        (omega arith))
                ])
      ])
    ])

-- The letter in front of the colon, and the colon, stop the two walks back.
colon_no_space : (c : ℕ) → to_lower c ≡ b':' → is_space c ≡ false
unfolding to_lower is_space
colon_no_space c h = ground arith

letter_no_digit : (c : ℕ) → to_lower c ≡ b't' → is_digit c ≡ false
unfolding to_lower is_digit
letter_no_digit c h = ground arith

-- `p` is the place of the header's newline.
parse_host_line-Returns :
    (want : Bool) (buf : Bytes) (size p host : ℕ)
    → size ≤ length buf
    → p + 6 ≤ host
    → host ≤ size
    → is_space (byte_at buf (p + 5)) ≡ false
    → is_digit (byte_at buf (p + 4)) ≡ false
    → Returns (parse_host_line want buf size host) (RequestWithin size)
unfolding parse_host_line
parse_host_line-Returns want buf size p host h k l colon letter =
    let (nl, q, f) = memchr-Returns (size - host) buf host 10 size (omega arith) h in
    rw q (elim (Option-cases nl) [
      | inl z ↦ rw z (refused, refl, inl (refl, refl))
      | inr (e, z) ↦
          let (low, high, newline) = rw z at f in
          let (l_end, q', g) = trim_back-Returns e buf (p + 5) (omega arith) (omega arith) colon in
          let (h_end, q'', d) =
            back_digits-Returns (l_end - 1) buf (p + 4) (omega arith) (omega arith) letter in
          rw z (
            rw (q', q'')
              (split_port-Returns want buf host l_end h_end e size h (omega arith) high newline g.1
                g.2 (omega arith) d.1 (ground (arith, d.2))))
    ])

-- `parse_http` never reads outside the buffer and always ends, on any bytes. A host that it
-- returns begins and ends inside the first `size` bytes, though it may end before it begins.
pub parse_http-Returns :
    (want : Bool) (buf : Bytes) (size : ℕ)
    → size ≤ length buf
    → Returns (parse_http want buf size) (RequestWithin size)
unfolding parse_http strncasestr to_lower
parse_http-Returns want buf size h =
    let (http, q, f) = is_http-Returns buf size h in
    let (found, q', g) =
      find_fold-Returns (suc size) buf size 10 host_text 0 h (omega arith) (omega arith)
        (omega arith) in
    rw q (elim (Bool-cases http) [
      | inr n ↦ rw n (refused, refl, inl (refl, refl))
      | inl y ↦
          rw (y, q')
            (elim (Option-cases found) [
              | inl z ↦ rw z (refused, refl, inl (refl, refl))
              | inr (p, z) ↦
                  let (fits, folds) = rw z at g in
                  let (host, q'', b) =
                    skip_blanks-Returns (size - (p + 6)) buf (p + 6) size (omega arith) h in
                  let at4 : p + 1 + 1 + 1 + 1 ≡ p + 4 = omega arith in
                  let at5 : p + 1 + 1 + 1 + 1 + 1 ≡ p + 5 = omega arith in
                  rw z (
                    rw q'' (
                      parse_host_line-Returns want buf size p host h b.0 (omega arith)
                        (colon_no_space (byte_at buf (p + 5)) (rw at5 at folds.1.1.1.1.1.0))
                        (letter_no_digit (byte_at buf (p + 4)) (rw at4 at folds.1.1.1.1.0))))
            ])
    ])
