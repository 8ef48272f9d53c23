-- ===== src/Options/Text/Quote.antt =====
-- data_from_str gives back any bytes whose backslashes are doubled.
use mathlib.Core.List.{append-nil, append_assoc}
use byedpi.Prelude.{
  ℕ, zero, suc, ◌+◌, ◌≤◌, ◌<◌, ◌≡◌, ◌≢◌, false, drop, refl, sym, ap, ◌∙◌, ◌&&◌, none, some, [], ◌∷◌,
  ◌++◌, Bytes, arith, read, read-middle, store-overwrite, overwrite-middle, length, length-append,
  replicate, length-replicate, take, take-front, ltb, ◌==◌, ◌!=◌, if◌then◌else◌, ◌>>=◌, if-cases,
  Returns,
}
use byedpi.Options.Text.{
  c_str, esca, Scanf, cform_item, cform_put, cform_loop, parse_cform, data_from_str,
}

abbrev quote_byte : ℕ → Bytes
quote_byte c = if c == 92 then 92 ∷ 92 ∷ [] else c ∷ []

unfoldable pub quote : Bytes → Bytes
quote [] = []
quote (c ∷ cs) = quote_byte c ++ quote cs

read-second :
    (pre : Bytes) (a b : ℕ) (ys : Bytes) → read (pre ++ (a ∷ b ∷ ys)) (length pre + 1) ≡ some b
read-second pre a b ys =
    ap (read (pre ++ (a ∷ b ∷ ys))) (sym (length-append pre (a ∷ [])))
    ∙ (ap (λ l. read l (length (pre ++ (a ∷ [])))) (sym (append_assoc pre (a ∷ []) (b ∷ ys)))
        ∙ read-middle (pre ++ (a ∷ [])) b ys)

quote_byte-length : (c : ℕ) → (0 < length (quote_byte c)) × (length (quote_byte c) ≤ 2)
quote_byte-length c =
    if-cases (λ q. (0 < length q) × (length q ≤ 2)) (c == 92) (92 ∷ 92 ∷ []) (c ∷ [])
      (λ _. (omega arith, omega arith)) (λ _. (omega arith, omega arith))

quote-length : (bs : Bytes) → length bs ≤ length (quote bs)
unfolding quote
quote-length [] = omega arith
quote-length (c ∷ cs) =
    let (k, w) = quote_byte-length c in
    omega (arith, length-append (quote_byte c) (quote cs), quote-length cs)

same_loop :
    (sc : Scanf) (fuel blen slen : ℕ) {a a' b b' : Bytes} {p p' i i' : ℕ}
    → a ≡ a'
    → b ≡ b'
    → p ≡ p'
    → i ≡ i'
    → cform_loop sc fuel a blen b slen p i ≡ cform_loop sc fuel a' blen b' slen p' i'
same_loop sc fuel blen slen {a' = a'} {b = b} {b' = b'} {p = p} {p' = p'} {i = i} e f g h =
    ap (λ a. cform_loop sc fuel a blen b slen p i) e
    ∙ (ap (λ b. cform_loop sc fuel a' blen b slen p i) f
        ∙ (ap (λ p. cform_loop sc fuel a' blen b' slen p i) g
            ∙ ap (cform_loop sc fuel a' blen b' slen p') h))

c_str-cons : (c : ℕ) (cs : Bytes) → c_str (c ∷ cs) ≡ c ∷ cs → (c ≢ 0) × (c_str cs ≡ cs)
unfolding c_str
c_str-cons c cs =
    if-cases (λ r. r ≡ c ∷ cs → (c ≢ 0) × (c_str cs ≡ cs)) (c == 0) [] (c ∷ c_str cs)
      (λ y e. absurd cc) (λ n e. (not_zero n, ap (drop 1) e))
  where
    not_zero : (c == 0) ≡ false → c ≢ 0
    not_zero n e = ground arith

c_str-put : (c : ℕ) (cs : Bytes) → c ≢ 0 → c_str (c ∷ cs) ≡ c ∷ c_str cs
unfolding c_str
c_str-put c cs h = rw (zero_test c h) refl
  where
    zero_test : (c : ℕ) → c ≢ 0 → (c == 0) ≡ false
    zero_test c h = ground arith

c_str-quote : (bs : Bytes) → c_str bs ≡ bs → c_str (quote bs) ≡ quote bs
unfolding quote
c_str-quote [] z = z
c_str-quote (c ∷ cs) z =
    let (h, z') = c_str-cons c cs z in
    let rest = c_str-quote cs z' in
    if-cases (λ q. c_str (q ++ quote cs) ≡ q ++ quote cs) (c == 92) (92 ∷ 92 ∷ []) (c ∷ [])
      (λ y.
        c_str-put 92 (92 ∷ quote cs) (λ e. absurd (omega arith))
        ∙ ap (λ r. 92 ∷ r)
            (c_str-put 92 (quote cs) (λ e. absurd (omega arith)) ∙ ap (λ r. 92 ∷ r) rest))
      (λ n. c_str-put c (quote cs) h ∙ ap (λ r. c ∷ r) rest)

module _ (sc : Scanf) where
  -- One quoted byte is read as that byte.
  item-quote :
      (pre : Bytes) (c : ℕ) (rest : Bytes)
      → cform_item sc (pre ++ (quote_byte c ++ rest)) (length pre)
        ≡ some (some c, length pre + length (quote_byte c))
  unfolding cform_item esca
  item-quote pre c rest =
      if-cases
        (λ q.
          cform_item sc (pre ++ (q ++ rest)) (length pre) ≡ some (some c, length pre + length q))
        (c == 92) (92 ∷ 92 ∷ []) (c ∷ [])
        (λ y.
          let e : c ≡ 92 = ground arith in
          rw (read-middle pre 92 (92 ∷ rest), read-second pre 92 92 rest, e)
            (ap (λ k. some (some 92, k)) (omega arith)))
        (λ n. rw (read-middle pre c rest) (
          if-cases (λ r. r ≡ some (some c, length pre + 1)) (c != 92) _ _ (λ _. refl)
            (λ m. absurd (ground arith))))

  put-middle :
      (xs : Bytes) (c d : ℕ) (ys : Bytes)
      → cform_put sc (xs ++ (c ∷ ys)) (length xs) (some d) ≡ some (xs ++ (d ∷ ys), length xs + 1)
  put-middle xs c d ys =
      rw
        (
          store-overwrite (xs ++ (c ∷ ys)) (length xs) (d ∷ [])
              (omega (arith, length-append xs (c ∷ ys))),
          overwrite-middle xs c d ys,
        )
        refl

  -- The loop from a place on where `bs` is left to read, and room for it.
  cform_loop-quote :
      (fuel : ℕ) (blen slen : ℕ) (pre bs tail done pad : Bytes)
      → length pre + length (quote bs) ≡ slen
      → length done + length pad ≡ blen
      → length bs ≤ length pad
      → length bs < fuel
      → Returns
          (cform_loop sc fuel
            (done ++ pad)
            blen
            (pre ++ (quote bs ++ tail))
            slen
            (length pre)
            (length done))
          (λ (b, i). (i ≡ length done + length bs) × (take i b ≡ done ++ bs))
  unfolding cform_loop quote
  cform_loop-quote zero blen slen pre bs tail done pad s l r f = absurd (omega arith)
  cform_loop-quote (suc fuel) blen slen pre [] tail done pad s l r f =
      if-cases (λ r. Returns r (λ (b, i). (i ≡ length done + 0) × (take i b ≡ done ++ [])))
        (ltb (length pre) slen && ltb (length done) blen) _ _ (λ y. absurd (ground arith))
        (λ n. (_, refl, (omega arith, take-front done pad ∙ sym (append-nil done))))
  cform_loop-quote (suc fuel) blen slen pre (c ∷ cs) tail done [] s l r f = absurd (omega arith)
  cform_loop-quote (suc fuel) blen slen pre (c ∷ cs) tail done (x ∷ pad) s l r f =
      let q = quote_byte c in
      let rest = quote cs ++ tail in
      let lq : length (quote (c ∷ cs)) ≡ length q + length (quote cs) =
        length-append q (quote cs) in
      let (k, w) = quote_byte-length c in
      let (res, e, (g, h)) =
        cform_loop-quote fuel blen slen (pre ++ q) cs tail (done ++ (c ∷ [])) pad
          (omega (arith, length-append pre q)) (omega (arith, length-append done (c ∷ [])))
          (omega arith) (omega arith) in
      rw (append_assoc q (quote cs) tail) (
        if-cases
          (λ r.
            Returns r
              (λ (b, i). (i ≡ length done + suc (length cs)) × (take i b ≡ done ++ (c ∷ cs))))
          (ltb (length pre) slen && ltb (length done) blen) _ _
          (λ y.
            rw (item-quote pre c rest, put-middle done x c pad)
              (
                res,
                same_loop sc fuel blen slen (sym (append_assoc done (c ∷ []) pad))
                      (sym (append_assoc pre q rest)) (sym (length-append pre q))
                      (sym (length-append done (c ∷ [])))
                    ∙ e,
                (omega (arith, g, length-append done (c ∷ [])), h ∙ append_assoc done (c ∷ []) cs),
              ))
          (λ n. absurd (ground (arith, lq))))

  parsed-quote :
      (bs : Bytes)
      → 0 < length bs
      → (if length (quote bs) == 0 then some none else (do
        (d, i) ←
            parse_cform sc
              (replicate (length (quote bs)) 0)
              (length (quote bs))
              (quote bs ++ (0 ∷ []))
              (length (quote bs))
        some (if i == 0 then none else some (take i d))))
        ≡ some (some bs)
  unfolding parse_cform
  parsed-quote bs h =
      let n = length (quote bs) in
      let more = quote-length bs in
      let ((d, i), e, (g, w)) =
        cform_loop-quote (suc n) n n [] bs (0 ∷ []) [] (replicate n 0) (omega arith)
          (omega (arith, length-replicate {A = ℕ} n 0))
          (omega (arith, length-replicate {A = ℕ} n 0, more)) (omega (arith, more)) in
      if-cases (λ r. r ≡ some (some bs)) (n == 0) _ _ (λ y. absurd (ground (arith, more)))
        (λ m.
          ap (λ o. o >>= λ x. some (if x.1 == 0 then none else some (take x.1 x.0))) e
          ∙ if-cases (λ r. some r ≡ some (some bs)) (i == 0) none (some (take i d))
              (λ y. absurd (ground arith)) (λ z. ap (λ b. some (some b)) w))

  -- Bytes that are not empty and have no 0 among them come back from their quoted form.
  pub data_from_str-quote :
      (bs : Bytes) → 0 < length bs → c_str bs ≡ bs → data_from_str sc (quote bs) ≡ some (some bs)
  unfolding data_from_str
  data_from_str-quote bs h z = rw (c_str-quote bs z) (parsed-quote bs h)
