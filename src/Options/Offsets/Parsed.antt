-- ===== src/Options/Offsets/Parsed.antt =====
-- What parse_offset of main.c makes of any text.
use mathlib.Core.Option.{some-injective}
use byedpi.Prelude.{
  ℕ, suc, ◌+◌, ◌≤◌, ◌<◌, ◌≡◌, ◌≢◌, ◌⊎◌, inl, inr, refl, sym, ap, ◌∙◌, Bool, true, false, Option,
  none, some, Bytes, arith, byte_at, read, read-byte_at, length, bit_or, ◌==◌, if-cases, ◌>>=◌,
  Returns,
}
use byedpi.Prelude.Int.{ℤ, pos, negsuc}
use byedpi.Desync.Offset.{Part}
use byedpi.Options.Offsets.{
  Strtol, int_max, in_range, base_flag, more_flag, parse_flags, counted, colon_loop, parse_offset,
}

-- strtol stays in front of the 0 behind a text.
pub record Stays (st : Strtol) : Type 0 where
  pub stays :
      (str : Bytes) (at stop : ℕ)
      → at ≤ stop
      → stop < length str
      → byte_at str stop ≡ 0
      → (at ≤ (st.scan str at).1) × ((st.scan str at).1 ≤ stop)

-- At most one place in a name, with at most one change.
abbrev pub IsFlag : ℕ → Type 0
IsFlag f =
    (b : ℕ) × (m : ℕ) × ((b ≡ 0) ⊎ ((b ≡ 8) ⊎ (b ≡ 16)))
    × ((m ≡ 0) ⊎ ((m ≡ 1) ⊎ ((m ≡ 2) ⊎ ((m ≡ 4) ⊎ (m ≡ 32)))))
    × (f ≡ b + m)

abbrev pub Counts : Part → Part → Type 0
Counts p q =
    (q.m ≡ p.m) × (q.flag ≡ p.flag) × (q.r ≤ int_max) × (q.s ≤ int_max) × ((q.r ≢ 0) ⊎ (q.s ≡ 0))

abbrev pub Parses : Part → ℤ → Option Part → Type 0
Parses p val none = Unit
Parses p val (some q) =
    (q.at ≡ val)
    × (q.m ≡ p.m)
    × IsFlag q.flag
    × (q.r ≤ int_max)
    × (q.s ≤ int_max)
    × ((q.r ≢ 0) ⊎ (q.s ≡ 0))

abbrev pub Numbers : Part → ℕ → Option (Part × ℕ) → Type 0
Numbers p stop none = Unit
Numbers p stop (some (q, end)) = (end ≤ stop) × Counts p q

in_range-le : (z : ℤ) (n : ℕ) → in_range z ≡ some n → n ≤ int_max
in_range-le (negsuc k) n e = absurd cc
in_range-le (pos x) n e = ground arith

-- The bits of the two letters are different ones.
abbrev Adds : ℕ → ℕ → Type 0
Adds b m = bit_or b m ≡ b + m

or_base : (b : ℕ) → (b ≡ 0) ⊎ ((b ≡ 8) ⊎ (b ≡ 16)) → Adds b 1 × Adds b 2 × Adds b 4 × Adds b 32
or_base b (inl e) = rw e (refl, refl, refl, refl)
or_base b (inr (inl e)) = rw e (refl, refl, refl, refl)
or_base b (inr (inr e)) = rw e (refl, refl, refl, refl)

more_flag-IsFlag : (c b : ℕ) → (b ≡ 0) ⊎ ((b ≡ 8) ⊎ (b ≡ 16)) → IsFlag (more_flag c b)
more_flag-IsFlag c b h =
    let (o, t, f, s) = or_base b h in
    if-cases IsFlag (c == b'e') (bit_or b 1) _ (λ y. (b, 1, h, inr (inl refl), o))
      (λ n.
        if-cases IsFlag (c == b'm') (bit_or b 2) _ (λ y. (b, 2, h, inr (inr (inl refl)), t))
          (λ n.
            if-cases IsFlag (c == b'r') (bit_or b 4) _
              (λ y. (b, 4, h, inr (inr (inr (inl refl))), f))
              (λ n.
                if-cases IsFlag (c == b's') (bit_or b 32) b
                  (λ y. (b, 32, h, inr (inr (inr (inr refl))), s))
                  (λ n. (b, 0, h, inl refl, omega arith)))))

base_flag-some :
    (c f b : ℕ) → f ≡ 0 → base_flag c f ≡ some b → (c ≢ 0) × ((b ≡ 0) ⊎ ((b ≡ 8) ⊎ (b ≡ 16)))
base_flag-some c f b z =
    if-cases (λ (o : Option ℕ). o ≡ some b → (c ≢ 0) × ((b ≡ 0) ⊎ ((b ≡ 8) ⊎ (b ≡ 16)))) (c == b's')
      (some 8) _ (λ y e. ((λ q. ground arith), inr (inl (sym (some-injective 8 b e)))))
      (λ n.
        if-cases (λ (o : Option ℕ). o ≡ some b → (c ≢ 0) × ((b ≡ 0) ⊎ ((b ≡ 8) ⊎ (b ≡ 16))))
          (c == b'h') (some 16) _
          (λ y e. ((λ q. ground arith), inr (inr (sym (some-injective 16 b e)))))
          (λ n.
            if-cases (λ (o : Option ℕ). o ≡ some b → (c ≢ 0) × ((b ≡ 0) ⊎ ((b ≡ 8) ⊎ (b ≡ 16))))
              (c == b'n') (some f) none
              (λ y e. ((λ q. ground arith), inl (sym (some-injective f b e) ∙ z)))
              (λ n e. absurd cc)))

module _ (str : Bytes) (stop : ℕ) (l : stop < length str) (z : byte_at str stop ≡ 0) where
  parse_flags-Parses :
      (p q : Part) (val : ℤ) (end : ℕ)
      → end ≤ stop
      → p.flag ≡ 0
      → Counts p q
      → Returns (parse_flags str q val end) (Parses p val)
  unfolding parse_flags
  parse_flags-Parses p q val end h f (m, g, r, s, k) = rw (read-byte_at str end (omega arith)) (
      if-cases (λ o. Returns o (Parses p val)) (byte_at str end == b'+') _ _
        (λ y.
          let before : end ≢ stop = λ e. not_zero y (ap (byte_at str) e ∙ z) in
          rw (read-byte_at str (end + 1) (omega arith))
            (based before (base_flag (byte_at str (end + 1)) q.flag) refl))
        (λ n.
          if-cases (λ o. Returns o (Parses p val)) (byte_at str end == 0) _ _
            (λ y. (_, refl, (refl, m, (0, 0, inl refl, inl refl, g ∙ f), r, s, k)))
            (λ n. (none, refl, tt))))
    where
      not_zero : (byte_at str end == b'+') ≡ true → byte_at str end ≡ 0 → ⊥
      not_zero y e = ground arith

      based :
          end ≢ stop
          → (o : Option ℕ) → base_flag (byte_at str (end + 1)) q.flag ≡ o
          → Returns {A = Option Part}
              (elim o [
                | none ↦ some none
                | some flag ↦ read str (end + 2) >>= λ more.
                    some (some (record q { flag = more_flag more flag; at = val }))
              ])
              (Parses p val)
      based before none e = (none, refl, tt)
      based before (some b) e =
          let (c, d) = base_flag-some (byte_at str (end + 1)) q.flag b (g ∙ f) e in
          let before' : end + 1 ≢ stop = λ w. c (ap (byte_at str) w ∙ z) in
          rw (read-byte_at str (end + 2) (omega arith))
            (_, refl, (refl, m, more_flag-IsFlag (byte_at str (end + 2)) b d, r, s, k))

  module _ (st : Strtol) (u : Stays st) where
    abbrev Counted : Part → Option (Option (Part × ℕ)) → Type 0
    Counted p o = Returns o (Numbers p stop)

    -- The number behind `:` at end stops in front of the 0.
    behind :
        (end : ℕ) → end ≤ stop → (byte_at str end == b':') ≡ true → (st.scan str (end + 1)).1 ≤ stop
    behind end h y =
        let before : end ≢ stop = λ e. not_zero (ap (byte_at str) e ∙ z) in
        (Stays.stays u str (end + 1) stop (omega arith) l z).1
      where
        not_zero : byte_at str end ≡ 0 → ⊥
        not_zero e = ground arith

    -- A pass with the number that was counted.
    abbrev Passes : ℕ → Part → Option (Bool × Part × ℕ) → Type 0
    Passes rounds p o = Counted p (elim o [
      | none ↦ some none
      | some (again, p', end') ↦ elim again [
        | true ↦ colon_loop st rounds str p' end'
        | false ↦ some (some (p', end'))
      ]
    ])

    counted-last :
        (p q : Part) (rounds next : ℕ) (number : ℤ)
        → next ≤ stop
        → Counts p q
        → q.r ≢ 0
        → (o : Option ℕ) → in_range number ≡ o
        → Passes rounds p (counted st q o next)
    counted-last p q rounds next number b c w none e = (none, refl, tt)
    counted-last p q rounds next number b (m, g, r, s, k) w (some rs) e =
        if-cases (Passes rounds p) (q.r == 0) _ _ (λ y. absurd (w (zero_test y)))
          (λ n. (_, refl, (b, (m, g, r, in_range-le number rs e, inl w))))
      where
        zero_test : (q.r == 0) ≡ true → q.r ≡ 0
        zero_test y = ground arith

    colon_loop-last :
        (p q : Part) (end rounds : ℕ)
        → end ≤ stop
        → Counts p q
        → q.r ≢ 0
        → Counted p (colon_loop st (suc rounds) str q end)
    unfolding colon_loop
    colon_loop-last p q end rounds h c w = rw (read-byte_at str end (omega arith)) (
        if-cases (Counted p) (byte_at str end == b':') _ _
          (λ y.
            let next = st.scan str (end + 1) in
            counted-last p q rounds next.1 next.0 (behind end h y) c w (in_range next.0) refl)
          (λ n. (_, refl, (h, c))))

    counted-first :
        (p : Part) (rounds next : ℕ) (number : ℤ)
        → next ≤ stop
        → p.r ≡ 0
        → p.s ≡ 0
        → (o : Option ℕ) → in_range number ≡ o
        → Passes (suc rounds) p (counted st p o next)
    counted-first p rounds next number b r s none e = (none, refl, tt)
    counted-first p rounds next number b r s (some rs) e = rw r (
        if-cases (Passes (suc rounds) p) (rs == 0) _ _ (λ y. (none, refl, tt))
          (λ n.
            colon_loop-last p (record p { r = rs }) next rounds b
              (refl, refl, in_range-le number rs e, none_left, inl (not_zero n)) (not_zero n)))
      where
        none_left : p.s ≤ int_max
        none_left = rw s (omega arith)

        not_zero : (rs == 0) ≡ false → rs ≢ 0
        not_zero n e = ground arith

    colon_loop-Numbers :
        (p : Part) (end rounds : ℕ)
        → end ≤ stop
        → p.r ≡ 0
        → p.s ≡ 0
        → Counted p (colon_loop st (suc (suc rounds)) str p end)
    unfolding colon_loop
    colon_loop-Numbers p end rounds h r s = rw (read-byte_at str end (omega arith)) (
        if-cases (Counted p) (byte_at str end == b':') _ _
          (λ y.
            let next = st.scan str (end + 1) in
            counted-first p rounds next.1 next.0 (behind end h y) r s (in_range next.0) refl)
          (λ n. (_, refl, (h, (refl, refl, at_most r, at_most s, inr s)))))
      where
        at_most : {n : ℕ} → n ≡ 0 → n ≤ int_max
        at_most e = omega arith

    -- On any text with a 0 behind it, and a part whose r, s and flag are 0, parse_offset returns: every byte it reads is
    -- in the text, and three passes of the loop are enough. Where it does not give up, the place is the first number,
    -- the repeats and the distance are at most INT_MAX, there is a distance only where there is a repeat, the mode is the
    -- part's, and the flag is one of the places of a name (or none) with at most one of the four changes.
    pub parse_offset-Parses :
        (p : Part)
        → p.r ≡ 0
        → p.s ≡ 0
        → p.flag ≡ 0
        → Returns (parse_offset st str p) (Parses p (st.scan str 0).0)
    unfolding parse_offset
    parse_offset-Parses p r s f =
        let end = (Stays.stays u str 0 stop (omega arith) l z).1 in
        let (o, e, n) = colon_loop-Numbers p (st.scan str 0).1 1 end r s in rw e (flags o n)
      where
        flags :
            (o : Option (Part × ℕ))
            → Numbers p stop o
            → Returns {A = Option Part}
                (elim o [
                  | none ↦ some none
                  | some (q, end') ↦ parse_flags str q (st.scan str 0).0 end'
                ])
                (Parses p (st.scan str 0).0)
        flags none n = (none, refl, tt)
        flags (some (q, end')) (h, c) = parse_flags-Parses p q (st.scan str 0).0 end' h f c
