-- ===== src/Desync/Split/Tiling.antt =====
-- What the loop of desync.c has sent when it returns.
use mathlib.Core.Option.{some-injective}
use byedpi.Prelude.{
  subst, ℕ, ◌+◌, ◌-◌, ◌*◌, ◌≤◌, ◌≡◌, ◌⊎◌, inl, inr, refl, Bool, true, false, Option, none, some,
  List, [], ◌∷◌, arith, min, ◌==◌, ◌||◌, if◌then◌else◌, Bool-cases,
}
use byedpi.Prelude.Int.{ℤ, pos, negsuc, pos_part, ◌+ℤ◌, ltb_ℤ}
use byedpi.Packets.Edit.{Stream}
use byedpi.Desync.Offset.{Part, Info, is_negative, gen_offset}
use byedpi.Desync.Kernel.{Kernel}
use byedpi.Desync.Kernel.Queue.{Tiles, Pending, Reaches, Stepped}
use byedpi.Desync.Split.{
  SplitParams, Call, Outcome, Choice, skip_it, leave, take, choose, split_loop, by_choice, by_sent,
  by_after,
}
use byedpi.Desync.Split.Steps.{
  Sends, Unless, AfterPart, no_count, send_rest-Sends, after_part-AfterPart, PartSent, Unless->>=,
  Unless-any, send_part-PartSent, fault, fine,
}

-- The three choices; a cut is not in front of `lp`, nor behind the request.
abbrev pub Chosen : ℕ → ℕ → Choice → Type 0
Chosen lp n ch = (ch ≡ skip_it) ⊎ (ch ≡ leave) ⊎ ((q : ℕ) × (ch ≡ take q) × (lp ≤ q) × (q ≤ n))

cut_at :
    (lp n : ℕ) (p : ℤ)
    → lp ≤ n
    → Chosen lp n (if is_negative p || ltb_ℤ p (pos lp) then leave else take (min (pos_part p) n))
cut_at lp n (negsuc p) b = inr (inl refl)
cut_at lp n (pos p) b = elim (Bool-cases (ltb_ℤ (pos p) (pos lp))) [
  | inl y ↦ rw y (inr (inl refl))
  | inr m ↦ rw m (inr (inr (min p n, refl, ground arith, ground arith)))
]

pub choose-Chosen :
    (c : Call) (flag i lp n : ℕ) (p : ℤ) → lp ≤ n → Chosen lp n (choose c flag i lp n p)
unfolding choose
choose-Chosen c flag i lp n p b = if_Chosen _ _ (if_Chosen _ _ (cut_at lp n p b))
  where
    if_Chosen : (t : Bool) (ch : Choice) → Chosen lp n ch → Chosen lp n (if t then skip_it else ch)
    if_Chosen true ch h = inl refl
    if_Chosen false ch h = h

Unless-by_choice {ℓ κ} :
    {A : Type ℓ} {P : A → Type κ} (lp n : ℕ) (ch : Choice) (x y : Option A) (f : ℕ → Option A)
    → Chosen lp n ch
    → Unless P x
    → Unless P y
    → ((q : ℕ) → lp ≤ q → q ≤ n → Unless P (f q))
    → Unless P (by_choice ch x y f)
Unless-by_choice lp n ch x y f (inl e) g h j = rw e g
Unless-by_choice lp n ch x y f (inr (inl e)) g h j = rw e h
Unless-by_choice lp n ch x y f (inr (inr (q, e, a, b))) g h j = rw e (j q a b)

Unless-by_sent {ℓ κ} :
    {A : Type ℓ} {P : A → Type κ} (o lp len : ℕ) (r : Option (ℤ × Kernel) × Info) (x : Option A)
    (f : ℤ → Kernel → Info → Option A)
    → PartSent o lp len r
    → Unless P x
    → ((s : ℤ) (k : Kernel) (info : Info) → Stepped o lp len (s, k) → Unless P (f s k info))
    → Unless P (by_sent r x f)
Unless-by_sent o lp len (none, info) x f p g h = g
Unless-by_sent o lp len (some (s, k), info) x f p g h = h s k info p

Unless-by_after :
    (o q : ℕ) (r : Outcome ⊎ Kernel) (f : Kernel → Option Outcome)
    → AfterPart o q r
    → ((k : Kernel) → Reaches o q k → Unless (Sends o) (f k))
    → Unless (Sends o) (by_after r f)
Unless-by_after o q (inl done) f p h = fine done p
Unless-by_after o q (inr k) f p h = h k p

split_loop-Sends :
    (dp : SplitParams) (c : Call) (n : ℕ) (ps : List (Part × ℕ)) (i lp part_sent : ℕ) (info : Info)
    (rnd : Stream) (k : Kernel)
    → c.part_skip ≡ 0
    → c.offset ≤ lp
    → lp ≤ n
    → Reaches c.offset lp k
    → Unless (Sends c.offset) (split_loop dp c n ps i lp part_sent info rnd k)
unfolding split_loop
split_loop-Sends dp c n [] i lp part_sent info rnd k z a b h =
    send_rest-Sends c.buf c.offset lp n part_sent k a b h
split_loop-Sends dp c n ((part, d) ∷ more) i lp part_sent info rnd k z a b h =
    Unless->>= _ _ (Unless-any (gen_offset rnd part.at part.flag c.buf n lp info))
      (λ (off, seen, rnd') _.
        Unless-by_choice lp n _ _ _ _
          (choose-Chosen c part.flag (i + 1) lp n (off +ℤ pos (part.s * d)) b)
          (split_loop-Sends dp c n more (i + 1) lp part_sent seen rnd' k z a b h)
          (send_rest-Sends c.buf c.offset lp n part_sent k a b h)
          (λ q l m. rw (no_skip z) (
            Unless->>= _ _
              (send_part-PartSent dp c n seen part.m c.offset d lp (q - lp) (i + 1) k h)
              (λ sent p.
                Unless-by_sent c.offset lp (q - lp) sent _ _ p
                  (fine _ (λ m' e. absurd (no_count m' e)))
                  (λ s k1 last st.
                    Unless->>= _ _
                      (after_part-AfterPart c.buf dp.wait_send c.part_skip c.offset lp q (i + 1) s
                        k1 a l st)
                      (λ after w. Unless-by_after c.offset q after _ w (λ k2 r.
                        split_loop-Sends dp c n more (i + 1) q (i + 1) last rnd' k2 z (omega arith)
                          m r)))))))
  where
    no_skip : c.part_skip ≡ 0 → (i + 1 == c.part_skip) ≡ false
    no_skip z = ground arith

Unless-some {ℓ κ} :
    {A : Type ℓ} {P : A → Type κ} (o : Option A) (a : A) → Unless P o → o ≡ some a → P a
Unless-some none a fault e = absurd (grind arith)
Unless-some {P = P} (some b) a (fine c p) e = subst P (some-injective b a e) p

-- While no reply of the kernel is a short one, and if no earlier call stopped at a part (part_skip is
-- 0): from a state whose queue reaches `lp` with the bytes of the buffer only, where `lp` is not in
-- front of the offset of the call nor behind the request, if the loop returns a number then the
-- pieces in the queue tile that many bytes of the buffer, from the offset of the call on, in order
-- and without a gap, whatever the parts are; and each piece that holds the bytes of a fake lies in
-- the range that the next restore_state writes over with the bytes of the buffer.
pub split_loop-Tiles :
    (dp : SplitParams) (c : Call) (n : ℕ) (ps : List (Part × ℕ)) (i lp part_sent : ℕ) (info : Info)
    (rnd : Stream) (k : Kernel) (r : Outcome) (m : ℕ)
    → c.part_skip ≡ 0
    → c.offset ≤ lp
    → lp ≤ n
    → Reaches c.offset lp k
    → split_loop dp c n ps i lp part_sent info rnd k ≡ some r
    → r.ret ≡ pos m
    → Tiles c.offset r.kernel.sent (c.offset + m) × Pending r.kernel.restore_fake r.kernel.sent
split_loop-Tiles dp c n ps i lp part_sent info rnd k r m z a b h e q =
    Unless-some _ r (split_loop-Sends dp c n ps i lp part_sent info rnd k z a b h) e m q
