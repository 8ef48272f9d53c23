-- ===== src/Extend/Trigger/Records.antt =====
-- The tracking of TLS records in extend.c ends, and stays inside its buffers.
use byedpi.Prelude.{
  ℕ, zero, suc, ◌+◌, ◌-◌, ◌*◌, ◌≤◌, ◌<◌, ◌≡◌, ◌⊎◌, inl, inr, refl, ◌||◌, Bool, true, false, some,
  [], ◌∷◌, Bytes, read-byte_at, byte_at, length, length-overwrite, store-overwrite, arith, ltb, leb,
  ◌==◌, if◌then◌else◌, Bool-cases, Returns,
}
use byedpi.Packets.Tls.Safe.{word_at, antohs-word_at}
use byedpi.Extend.Trigger.{Follow, Pass, bad, next, take_record, follow_pass, follow_loop, follow}

-- A state between two passes: the header buffer has its size, and what was counted lies in the
-- header or in the record.
abbrev pub Inside : Follow → Type 0
Inside f = (length f.tls_rec ≡ 5) × ((f.tls_rec_pos ≤ 5) ⊎ (f.tls_rec_pos ≤ f.tls_rec_size))

-- One pass more is needed where the state may be reset.
abbrev passes_left : Follow → ℕ → ℕ → ℕ
passes_left f at n = 2 * (n - at) + (if ltb f.tls_rec_pos 5 then 0 else 1)

abbrev Passed : Follow → ℕ → ℕ → Pass → Type 0
Passed f at n (bad g) = Unit
Passed f at n (next g at') = (at ≤ at') × (passes_left g at' n < passes_left f at n) × Inside g

take_record-Passed :
    (f : Follow) (at n : ℕ)
    → at < n
    → 5 ≤ f.tls_rec_pos
    → length f.tls_rec ≡ 5
    → Passed f at n (take_record f at n)
unfolding take_record
take_record-Passed f at n a p l = elim (Bool-cases (leb f.tls_rec_size f.tls_rec_pos)) [
  | inl y ↦ rw y tt
  | inr z ↦ rw z (ground arith, ground arith, (l, inr (ground arith)))
]

either-Passed :
    (f : Follow) (at n : ℕ) (b : Bool) (x y : Pass)
    → (b ≡ true → Passed f at n x)
    → (b ≡ false → Passed f at n y)
    → Passed f at n (if b then x else y)
either-Passed f at n true x y g h = g refl
either-Passed f at n false x y g h = h refl

follow_pass-Passed :
    (f : Follow) (buf : Bytes) (at n : ℕ)
    → length f.tls_rec ≡ 5
    → at < n
    → n ≤ length buf
    → Returns (follow_pass f buf at n) (Passed f at n)
unfolding follow_pass
follow_pass-Passed f buf at n l a b = elim (Bool-cases (ltb f.tls_rec_pos 5)) [
  | inl y ↦
      rw
        (
          y,
          read-byte_at buf at (omega arith),
          store-overwrite f.tls_rec f.tls_rec_pos (byte_at buf at ∷ []) (ground arith),
        )
        (
          _,
          refl,
          (
            omega arith,
            ground arith,
            (
              rw (length-overwrite f.tls_rec f.tls_rec_pos (byte_at buf at ∷ [])) l,
              inl (ground arith),
            ),
          ),
        )
  | inr z ↦ rw z (elim (Bool-cases (f.tls_rec_pos == 5)) [
    | inl y ↦
        rw (y, antohs-word_at f.tls_rec 3 (omega arith), read-byte_at f.tls_rec 0 (omega arith))
          (
            _,
            refl,
            either-Passed f at n (ltb (byte_at f.tls_rec 0) 20 || ltb 24 (byte_at f.tls_rec 0))
                (bad (record f { tls_rec_size = word_at f.tls_rec 3 + 5 }))
                (take_record (record f { tls_rec_size = word_at f.tls_rec 3 + 5 }) at n) (λ _. tt)
                (λ _.
                  take_record-Passed (record f { tls_rec_size = word_at f.tls_rec 3 + 5 }) at n a
                    (ground arith) l),
          )
    | inr w ↦ rw w (
      _,
      refl,
      either-Passed f at n (f.tls_rec_pos == f.tls_rec_size)
          (next (record f { tls_rec_pos = 0; tls_rec_size = 0 }) at) (take_record f at n)
          (λ e. (omega arith, ground arith, (l, inl (omega arith))))
          (λ e. take_record-Passed f at n a (ground arith) l),
    )
  ])
]

-- What the loop leaves.
abbrev pub Followed : Bool × Follow → Type 0
Followed (ok, f) = (ok ≡ false) ⊎ Inside f

follow_loop-Followed :
    (fuel : ℕ) (f : Follow) (buf : Bytes) (at n : ℕ)
    → length f.tls_rec ≡ 5
    → at < n
    → n ≤ length buf
    → passes_left f at n < fuel
    → Returns (follow_loop fuel f buf at n) Followed
unfolding follow_loop
follow_loop-Followed zero f buf at n l a b h = absurd (omega arith)
follow_loop-Followed (suc fuel) f buf at n l a b h =
    let (p, e, q) = follow_pass-Passed f buf at n l a b in
    rw e (go p q (λ g at' i c m. follow_loop-Followed fuel g buf at' n i c b m))
  where
    go :
        (p : Pass)
        → Passed f at n p
        → ((g : Follow) (at' : ℕ)
            → length g.tls_rec ≡ 5
            → at' < n
            → passes_left g at' n < fuel
            → Returns (follow_loop fuel g buf at' n) Followed)
        → Returns
            (elim p [
              | bad g ↦ some (false, g)
              | next g at' ↦ if ltb at' n then follow_loop fuel g buf at' n else some (true, g)
            ])
            Followed
    go (bad g) q again = (_, refl, inl refl)
    go (next g at') (q, m, i) again = elim (Bool-cases (ltb at' n)) [
      | inl y ↦ rw y (again g at' i.0 (ground arith) (omega arith))
      | inr z ↦ rw z (_, refl, inr i)
    ]

-- On any bytes and in any state whose header buffer has five bytes, the tracking of records ends
-- reads nothing outside the bytes that came and writes nothing outside the header buffer. It is refused, or what was counted lies in the
-- header or in the record.
pub follow-Followed :
    (f : Follow) (buf : Bytes) (n : ℕ)
    → length f.tls_rec ≡ 5
    → 0 < n
    → n ≤ length buf
    → Returns (follow f buf n) Followed
unfolding follow
follow-Followed f buf n l a b = follow_loop-Followed (2 * n + 2) f buf 0 n l a b (ground arith)
