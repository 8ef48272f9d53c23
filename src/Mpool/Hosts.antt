-- ===== src/Mpool/Hosts.antt =====
-- What it means for host_cmp to call two names the same.
use byedpi.Prelude.{
  ℕ, zero, suc, ◌-◌, ◌≤◌, ◌<◌, ◌≡◌, ◌≢◌, ◌↔◌, ◌⊎◌, refl, inl, inr, arith, Bytes, length, byte_at,
  read-byte_at, Returns, Bool-cases, ltb, ◌==◌, ◌!=◌, if◌then◌else◌, min,
}
use byedpi.Mpool.{Sign, less, same, more, Elem, host_scan, host_end, host_cmp}

-- The last `n` bytes of the two, from the offsets `i` and `j` back, agree.
abbrev pub Ends : ℕ → Bytes → ℕ → Bytes → ℕ → Type 0
Ends zero p i q j = Unit
Ends (suc n) p i q j = (byte_at p (i - 1) ≡ byte_at q (j - 1)) × Ends n p (i - 1) q (j - 1)

-- The two pointers after the loop lie `n` below where they began.
host_scan-Returns :
    (n : ℕ) (p : Bytes) (i : ℕ) (q : Bytes) (j : ℕ)
    → n ≤ i
    → i ≤ length p
    → n ≤ j
    → j ≤ length q
    → Returns (host_scan n p i q j) (λ (s, i', j').
      ((s ≡ same) × Ends n p i q j × (i' ≡ i - n) × (j' ≡ j - n)) ⊎ ((s ≢ same) × ¬ Ends n p i q j))
unfolding host_scan
host_scan-Returns zero p i q j a b c d = (_, refl, inl (refl, tt, omega arith, omega arith))
host_scan-Returns (suc n) p i q j a b c d =
    rw (read-byte_at p (i - 1) (omega arith), read-byte_at q (j - 1) (omega arith))
      (elim (Bool-cases (byte_at p (i - 1) != byte_at q (j - 1))) [
        | inl y ↦ rw y (_, refl, inr (ground arith, λ e. ground arith))
        | inr z ↦
            let (r, e, f) =
              host_scan-Returns n p (i - 1) q (j - 1) (omega arith) (omega arith) (omega arith)
                (omega arith) in
            rw z (r, e, ground (arith, f))
      ])

-- One name is the other, or ends in a dot and the other.
abbrev pub Covers : Elem → Elem → Type 0
Covers p q =
    (Ends (min p.len q.len) p.body p.len q.body q.len)
    × ((p.len ≡ q.len)
        ⊎ ((q.len < p.len) × (byte_at p.body (p.len - q.len - 1) ≡ b'.'))
        ⊎ ((p.len < q.len) × (byte_at q.body (q.len - p.len - 1) ≡ b'.')))

abbrev Scanned : ℕ → Elem → Elem → Sign → ℕ → ℕ → Type 0
Scanned m p q s pd qd =
    ((s ≡ same) × Ends m p.body p.len q.body q.len × (pd ≡ p.len - m) × (qd ≡ q.len - m))
    ⊎ ((s ≢ same) × ¬ Ends m p.body p.len q.body q.len)

host_end-Covers :
    (p q : Elem) (m : ℕ) (s : Sign) (pd qd : ℕ)
    → p.len ≤ length p.body
    → q.len ≤ length q.body
    → m ≡ min p.len q.len
    → Scanned m p q s pd qd
    → Returns (host_end p q s pd qd) (λ r. (r ≡ same) ↔ Covers p q)
unfolding host_end
host_end-Covers p q m less pd qd h k e f = (less, refl, ground arith)
host_end-Covers p q m more pd qd h k e f = (more, refl, ground arith)
host_end-Covers p q m same pd qd h k e f = elim (Bool-cases (p.len == q.len)) [
  | inl y ↦ rw y (same, refl, ground arith)
  | inr n ↦ elim (Bool-cases (ltb q.len p.len)) [
    | inl l ↦
        let at : pd ≡ p.len - q.len = ground arith in
        rw (n, l, at, read-byte_at p.body (p.len - q.len - 1) (ground arith))
          (_, refl, ground arith)
    | inr l ↦
        let at : qd ≡ q.len - p.len = ground arith in
        rw (n, l, at, read-byte_at q.body (q.len - p.len - 1) (ground arith))
          (_, refl, ground arith)
  ]
]

-- `host_cmp` reads nothing outside the two names, and calls them the same exactly when they are
-- equal or one is a subdomain of the other: the longer ends in a dot and the shorter.
pub host_cmp-Covers :
    (p q : Elem)
    → p.len ≤ length p.body
    → q.len ≤ length q.body
    → Returns (host_cmp p q) (λ s. (s ≡ same) ↔ Covers p q)
unfolding host_cmp
host_cmp-Covers p q h k =
    let m : ℕ = if ltb q.len p.len then q.len else p.len in
    let is_min : m ≡ min p.len q.len = ground arith in
    let (r, e, f) =
      host_scan-Returns m p.body p.len q.body q.len (ground arith) h (ground arith) k in
    rw e (host_end-Covers p q m r.0 r.1 r.2 h k is_min f)
