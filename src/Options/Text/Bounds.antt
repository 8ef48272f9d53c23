-- ===== src/Options/Text/Bounds.antt =====
-- parse_cform stays inside both of its objects.
use byedpi.Prelude.{
  ℕ, zero, suc, ◌+◌, ◌≤◌, ◌<◌, ◌≡◌, refl, ◌∙◌, ◌&&◌, Option, none, some, [], ◌∷◌, Bytes, arith,
  read-byte_at, byte_at, store-overwrite, length-overwrite, length, ltb, ◌!=◌, if-cases, Returns,
}
use byedpi.Options.Text.{
  esca, or_else, Scanf, escape, cform_item, cform_put, cform_loop, parse_cform,
}

-- What sscanf reads lies in the text, and is a character at least.
abbrev pub Reads : Bytes → ℕ → (Bytes → ℕ → Option (ℕ × ℕ)) → Type 0
Reads str slen f = (p b n : ℕ) → p ≤ slen → f str p ≡ some (b, n) → (1 ≤ n) × (p + n ≤ slen)

-- A round passes a character, and the end by no more than one.
abbrev Passes : ℕ → ℕ → Option ℕ × ℕ → Type 0
Passes slen p (b, p') = (p < p') × (p' ≤ slen)

module _ (sc : Scanf) (str : Bytes) (slen : ℕ) (ends : slen < length str)
    (hex : Reads str slen sc.hex) (oct : Reads str slen sc.oct) where
  escape-Passes :
      (p : ℕ) (o : Option ℕ) → p < slen → Returns (escape sc str (p + 1) o) (Passes (slen + 1) p)
  escape-Passes p (some b) l = (_, refl, (omega arith, omega arith))
  escape-Passes p none l =
      go (sc.hex str (p + 1)) (sc.oct str (p + 1)) (λ b n q. hex (p + 1) b n (omega arith) q)
        (λ b n q. oct (p + 1) b n (omega arith) q)
    where
      go :
          (x y : Option (ℕ × ℕ))
          → ((b n : ℕ) → x ≡ some (b, n) → (1 ≤ n) × (p + 1 + n ≤ slen))
          → ((b n : ℕ) → y ≡ some (b, n) → (1 ≤ n) × (p + 1 + n ≤ slen))
          → Returns {A = Option ℕ × ℕ}
              (elim (or_else x y) [
                | some (b, n) ↦ some (some b, p + 1 + n)
                | none ↦ some (none, p + 1)
              ])
              (Passes (slen + 1) p)
      go (some (b, n)) y f g = let (k, u) = f b n refl in (_, refl, (omega arith, omega arith))
      go none (some (b, n)) f g = let (k, u) = g b n refl in (_, refl, (omega arith, omega arith))
      go none none f g = (_, refl, (omega arith, omega arith))

  item-Passes : (p : ℕ) → p < slen → Returns (cform_item sc str p) (Passes (slen + 1) p)
  unfolding cform_item
  item-Passes p l = rw (read-byte_at str p (omega arith)) (
      if-cases (λ r. Returns r (Passes (slen + 1) p)) (byte_at str p != 92) _ _
        (λ _. (_, refl, (omega arith, omega arith)))
        (λ _.
          rw (read-byte_at str (p + 1) (omega arith))
            (escape-Passes p (esca (byte_at str (p + 1))) l)))

  -- The buffer keeps its length, and what is filled of it is within `blen` and no more than `m` bytes.
  abbrev Filled : Bytes → ℕ → ℕ → Bytes × ℕ → Type 0
  Filled buffer blen m (b, i) = (length b ≡ length buffer) × (i ≤ blen) × (i ≤ m)

  put-Filled :
      (buffer : Bytes) (blen i : ℕ) (b : Option ℕ)
      → blen ≤ length buffer
      → i < blen
      → Returns (cform_put sc buffer i b) (Filled buffer blen (i + 1))
  put-Filled buffer blen i none h l = (_, refl, (refl, omega arith, omega arith))
  put-Filled buffer blen i (some b) h l =
      rw (store-overwrite buffer i (b ∷ []) (omega arith))
        (_, refl, (length-overwrite buffer i (b ∷ []), omega arith, omega arith))

  cform_loop-Filled :
      (fuel : ℕ) (buffer : Bytes) (blen p i : ℕ)
      → blen ≤ length buffer
      → slen < fuel + p
      → 0 < fuel
      → i ≤ blen
      → i ≤ p
      → i ≤ slen
      → Returns (cform_loop sc fuel buffer blen str slen p i) (Filled buffer blen slen)
  unfolding cform_loop
  cform_loop-Filled zero buffer blen p i h f z k m s = absurd (omega arith)
  cform_loop-Filled (suc fuel) buffer blen p i h f z k m s =
      if-cases (λ r. Returns r (Filled buffer blen slen)) (ltb p slen && ltb i blen) _ _
        (λ y.
          let in_text : p < slen = ground arith in
          let in_buffer : i < blen = ground arith in
          let ((b, p'), e, (l, u)) = item-Passes p in_text in
          let ((buffer', i'), e', (w, v, x)) = put-Filled buffer blen i b h in_buffer in
          let (r, e'', (w', v', x')) =
            cform_loop-Filled fuel buffer' blen p' i' (omega (arith, w)) (omega arith) (omega arith)
              v (omega arith) (omega arith) in
          rw (e, e') (r, e'', (w' ∙ w, v', x')))
        (λ _. (_, refl, (refl, k, s)))

  -- If sscanf reads no further than the text, parse_cform ends, reads nothing behind the byte that
  -- ends the text, writes nothing outside of a buffer of `blen` bytes, and returns no more than
  -- `blen` and no more than the length of the text.
  pub parse_cform-Filled :
      (buffer : Bytes) (blen : ℕ)
      → blen ≤ length buffer
      → Returns
          (parse_cform sc buffer blen str slen)
          (λ (b, i). (length b ≡ length buffer) × (i ≤ blen) × (i ≤ slen))
  unfolding parse_cform
  parse_cform-Filled buffer blen h =
      cform_loop-Filled (suc slen) buffer blen 0 0 h (omega arith) (omega arith) (omega arith)
        (omega arith) (omega arith)
