-- ===== src/Packets/Tls/Chain.antt =====
-- What an extension block means, apart from the code: a chain of headers, each with the length of
-- its body, and the search of find_tls_ext_offset against it.
use byedpi.Prelude.{
  ℕ, zero, suc, ◌+◌, ◌-◌, ◌≤◌, ◌<◌, ◌≡◌, ◌≢◌, ◌↔◌, refl, sym, ap, ◌∙◌, inl, inr, some, arith, Bytes,
  length, Bool-cases, ltb, ltb→lt, ◌==◌, if◌then◌else◌,
}
use byedpi.Packets.Tls.{find_ext, find_tls_ext_offset}
use byedpi.Packets.Tls.Safe.{word_at, antohs-word_at}

-- `off` is the header of the wanted type that the loop comes to from `at`.
data FirstExt (type : ℕ) (buf : Bytes) (size : ℕ) : ℕ → ℕ → Type 0 where
  here :
      {at off : ℕ}
      → at + 4 < size
      → word_at buf at ≡ type
      → off ≡ at
      → FirstExt type buf size at off
  there :
      {at off : ℕ}
      → at + 4 < size
      → word_at buf at ≢ type
      → FirstExt type buf size (at + (word_at buf (at + 2) + 4)) off
      → FirstExt type buf size at off

-- The block ends where its length word says, or with the buffer if that is sooner.
abbrev pub block_end : Bytes → ℕ → ℕ → ℕ
block_end buf size skip =
    if ltb (word_at buf skip) (size - (skip + 2)) then word_at buf skip + (skip + 2) else size

find_ext_sound :
    (fuel type : ℕ) (buf : Bytes) (size at r : ℕ)
    → size ≤ length buf
    → r ≢ 0
    → find_ext fuel type buf size at ≡ some r
    → FirstExt type buf size at r
unfolding find_ext
find_ext_sound zero type buf size at r h n e = cc
find_ext_sound (suc fuel) type buf size at r h n e = elim (Bool-cases (ltb (at + 4) size)) [
  | inr t ↦ absurd (n (ground arith))
  | inl t ↦
      let more : at + 4 < size = ltb→lt (at + 4) size t in
      let first = antohs-word_at buf at (omega arith) in
      let second = antohs-word_at buf (at + 2) (omega arith) in
      elim (Bool-cases (type == word_at buf at)) [
        | inl m ↦ here more (ground arith) (ground arith)
        | inr m ↦ there more (ground arith) (
            find_ext_sound fuel type buf size (at + (word_at buf (at + 2) + 4)) r h n
              (ground arith))
      ]
]

find_ext_complete :
    (fuel type : ℕ) (buf : Bytes) (size at r : ℕ)
    → size ≤ length buf
    → size - at < fuel
    → FirstExt type buf size at r
    → find_ext fuel type buf size at ≡ some r
unfolding find_ext
find_ext_complete zero type buf size at r h k f = absurd (omega arith)
find_ext_complete (suc fuel) type buf size at r h k (here more m e) =
    ground (arith, antohs-word_at buf at)
find_ext_complete (suc fuel) type buf size at r h k (there more m f) = ground (
  arith,
  antohs-word_at buf at,
  antohs-word_at buf (at + 2),
  find_ext_complete fuel type buf size (at + (word_at buf (at + 2) + 4)) r h (omega arith) f,
)

FirstExt-le : {type : ℕ} {buf : Bytes} {size at r : ℕ} → FirstExt type buf size at r → at ≤ r
FirstExt-le (here more m e) = omega arith
FirstExt-le (there more m f) = omega (arith, FirstExt-le f)

block_end-le : (buf : Bytes) (size skip : ℕ) → block_end buf size skip ≤ size
block_end-le buf size skip = ground arith

find_tls_ext_offset-find_ext :
    (type : ℕ) (buf : Bytes) (size skip : ℕ)
    → size ≤ length buf
    → skip + 2 < size
    → find_tls_ext_offset type buf size skip
      ≡ find_ext (suc size) type buf (block_end buf size skip) (skip + 2)
unfolding find_tls_ext_offset
find_tls_ext_offset-find_ext type buf size skip h k = ground (arith, antohs-word_at buf skip)

-- Headers on the chain that starts at `at`: each stands behind the body of the one before, which lies
-- in the block.
pub data OnChain (buf : Bytes) (size : ℕ) : ℕ → ℕ → Type 0 where
  start : {at off : ℕ} → off ≡ at → OnChain buf size at off
  next :
      {at off : ℕ}
      → at + 4 ≤ size
      → OnChain buf size (at + (word_at buf (at + 2) + 4)) off
      → OnChain buf size at off

-- The first header of the type on the chain, with a byte of the block behind it.
abbrev pub IsFirst : ℕ → Bytes → ℕ → ℕ → ℕ → Type 0
IsFirst type buf size at r =
    OnChain buf size at r
    × (word_at buf r ≡ type)
    × (r + 4 < size)
    × ((o : ℕ) → OnChain buf size at o → o < r → word_at buf o ≢ type)

OnChain-le : {buf : Bytes} {size at off : ℕ} → OnChain buf size at off → at ≤ off
OnChain-le (start e) = omega arith
OnChain-le (next l c) = omega (arith, OnChain-le c)

FirstExt-IsFirst :
    (type : ℕ) (buf : Bytes) (size at r : ℕ)
    → FirstExt type buf size at r
    → IsFirst type buf size at r
FirstExt-IsFirst type buf size at r (here more m e) =
    (start e, ap (word_at buf) e ∙ m, omega arith, λ o c l. absurd (omega (arith, OnChain-le c)))
FirstExt-IsFirst type buf size at r (there more m f) =
    let (c, w, l, least) = FirstExt-IsFirst type buf size (at + (word_at buf (at + 2) + 4)) r f in
    (next (omega arith) c, w, l, earlier least)
  where
    earlier :
        ((o : ℕ)
          → OnChain buf size (at + (word_at buf (at + 2) + 4)) o
          → o < r
          → word_at buf o ≢ type)
        → (o : ℕ) → OnChain buf size at o
        → o < r
        → word_at buf o ≢ type
    earlier least o (start e) l q = m (ap (word_at buf) (sym e) ∙ q)
    earlier least o (next k c) l q = least o c l q

IsFirst-FirstExt :
    {type : ℕ} {buf : Bytes} {size at r : ℕ}
    → OnChain buf size at r
    → word_at buf r ≡ type
    → r + 4 < size
    → ((o : ℕ) → OnChain buf size at o → o < r → word_at buf o ≢ type)
    → FirstExt type buf size at r
IsFirst-FirstExt {buf = buf} {at = at} (start e) w l least =
    here (omega arith) (ap (word_at buf) (sym e) ∙ w) e
IsFirst-FirstExt {buf = buf} {at = at} (next k c) w l least =
    let further = OnChain-le c in
    there (omega arith) (least at (start refl) (omega arith))
      (IsFirst-FirstExt c w l (λ o c'. least o (next k c')))

-- The search returns an offset other than 0 exactly when that is the first header of the wanted type
-- on the chain of extensions, from behind the length word up to the end of the block, and at least
-- one byte of the block is behind that header: an empty extension that ends the block is not found.
pub find_tls_ext_offset_iff :
    (type : ℕ) (buf : Bytes) (size skip r : ℕ)
    → size ≤ length buf
    → skip + 2 < size
    → r ≢ 0
    → (find_tls_ext_offset type buf size skip ≡ some r)
      ↔ IsFirst type buf (block_end buf size skip) (skip + 2) r
find_tls_ext_offset_iff type buf size skip r h k n =
    let bound = block_end-le buf size skip in
    rw (find_tls_ext_offset-find_ext type buf size skip h k) (
      (λ e. FirstExt-IsFirst type buf (block_end buf size skip) (skip + 2) r (
          find_ext_sound (suc size) type buf (block_end buf size skip) (skip + 2) r (omega arith) n
            e)),
      (λ (c, w, l, least).
          find_ext_complete (suc size) type buf (block_end buf size skip) (skip + 2) r (omega arith)
            (omega arith) (IsFirst-FirstExt c w l least)),
    )
