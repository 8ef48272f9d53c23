-- ===== src/Desync/Split/Total.antt =====
-- When the loop of desync.c returns.
use byedpi.Prelude.{
  ℕ, if-cases, ◌+◌, ◌-◌, ◌*◌, ◌≤◌, ◌≡◌, ◌⊎◌, inl, inr, refl, not, has, Bool, true, false, Option,
  none, some, List, [], ◌∷◌, arith, length, Bytes, ◌==◌, ◌||◌, ◌&&◌, if◌then◌else◌, ◌>>=◌, Returns,
}
use byedpi.Prelude.Int.{ℤ, pos, ◌+ℤ◌}
use byedpi.Packets.Tls.Safe.{parse_tls-Returns}
use byedpi.Packets.Http.Safe.{parse_http-Returns}
use byedpi.Packets.Edit.{Stream}
use byedpi.Desync.Offset.{
  Part, Info, is_https, init_proto_info, host_offset, plain_offset, gen_offset, offset_end,
  offset_mid, offset_rand, offset_sni, offset_host,
}
use byedpi.Desync.Kernel.{Kernel}
use byedpi.Desync.Split.Clean.{
  Any, AllPlain, Clean, CleanSent, CleanAfter, send_part-Returns, rest-Returns, after_part-Returns,
}
use byedpi.Desync.Split.Tiling.{Chosen, choose-Chosen}
use byedpi.Desync.Split.{
  SplitParams, Call, Outcome, Choice, choose, split_loop, by_choice, by_sent, by_after,
}

if_Any {ℓ} :
    {A : Type ℓ} (b : Bool) (x y : Option A)
    → Returns x Any
    → Returns y Any
    → Returns (if b then x else y) Any
if_Any true x y g h = g
if_Any false x y g h = h

bind_Any {ℓ κ} :
    {A : Type ℓ} {B : Type κ} (m : Option A) (f : A → Option B)
    → Returns m Any
    → ((a : A) → Returns (f a) Any)
    → Returns (m >>= f) Any
bind_Any m f (a, e, p) g = let (b, e', q) = g a in (b, rw e e', tt)

init_proto_info-Returns :
    (buf : Bytes) (n : ℕ) (info : Info) → n ≤ length buf → Returns (init_proto_info buf n info) Any
unfolding init_proto_info
init_proto_info-Returns buf n info h =
    let (t, et, pt) = parse_tls-Returns buf n h in
    let (r, er, pr) = parse_http-Returns false buf n h in
    if_Any info.init _ _ (_, refl, tt)
      (rw et (if_Any (t.len == 0) _ _ (rw er (_, refl, tt)) (_, refl, tt)))

-- Without OFFSET_RAND.
host_offset-Returns :
    (rnd : Stream) (at : ℤ) (flag : ℕ) (info : Info)
    → has flag offset_rand ≡ false
    → Returns (host_offset rnd at flag info) Any
unfolding host_offset
host_offset-Returns rnd at flag info h =
    if_Any (has flag offset_end) _ _ (_, refl, tt)
      (if_Any (has flag offset_mid) _ _ (_, refl, tt) (rw h (_, refl, tt)))

plain_offset-Returns :
    (rnd : Stream) (at : ℤ) (flag n lp : ℕ)
    → has flag offset_rand ≡ false
    → Returns (plain_offset rnd at flag n lp) Any
unfolding plain_offset
plain_offset-Returns rnd at flag n lp h = rw h (_, refl, tt)

gen_offset-Returns :
    (rnd : Stream) (at : ℤ) (flag : ℕ) (buf : Bytes) (n lp : ℕ) (info : Info)
    → has flag offset_rand ≡ false
    → n ≤ length buf
    → Returns (gen_offset rnd at flag buf n lp info) Any
unfolding gen_offset
gen_offset-Returns rnd at flag buf n lp info h b =
    if_Any (has flag (offset_sni + offset_host)) _ _
      (bind_Any (init_proto_info buf n info) _ (init_proto_info-Returns buf n info b) (λ seen.
        if_Any ((seen.host_pos == 0) || (has flag offset_sni && not (is_https seen.type))) _ _
          (_, refl, tt)
          (bind_Any (host_offset rnd (at +ℤ pos seen.host_pos) flag seen) _
            (host_offset-Returns rnd (at +ℤ pos seen.host_pos) flag seen h) (λ g. (_, refl, tt)))))
      (bind_Any (plain_offset rnd at flag n lp) _ (plain_offset-Returns rnd at flag n lp h)
        (λ g. (_, refl, tt)))

by_choice-Any {ℓ} :
    {A : Type ℓ} (lp n : ℕ) (ch : Choice) (x y : Option A) (f : ℕ → Option A)
    → Chosen lp n ch
    → Returns x Any
    → Returns y Any
    → ((q : ℕ) → lp ≤ q → q ≤ n → Returns (f q) Any)
    → Returns (by_choice ch x y f) Any
by_choice-Any lp n ch x y f (inl e) g h j = rw e g
by_choice-Any lp n ch x y f (inr (inl e)) g h j = rw e h
by_choice-Any lp n ch x y f (inr (inr (q, e, a, b))) g h j = rw e (j q a b)

by_sent-Any {ℓ} :
    {A : Type ℓ} (r : Option (ℤ × Kernel) × Info) (x : Option A) (f : ℤ → Kernel → Info → Option A)
    → CleanSent r
    → Returns x Any
    → ((s : ℤ) (k : Kernel) (info : Info) → Clean k → Returns (f s k info) Any)
    → Returns (by_sent r x f) Any
by_sent-Any (none, info) x f p g h = g
by_sent-Any (some (s, k), info) x f p g h = h s k info p

by_after-Any :
    (r : Outcome ⊎ Kernel) (f : Kernel → Option Outcome)
    → CleanAfter r
    → ((k : Kernel) → Clean k → Returns (f k) Any)
    → Returns (by_after r f) Any
by_after-Any (inl done) f p h = (done, refl, tt)
by_after-Any (inr k) f p h = h k p

bind_With {ℓ κ ν} :
    {A : Type ℓ} {B : Type κ} (P : A → Type ν) (m : Option A) (f : A → Option B)
    → Returns m P
    → ((a : A) → P a → Returns (f a) Any)
    → Returns (m >>= f) Any
bind_With P m f (a, e, p) g = let (b, e', q) = g a p in (b, rw e e', tt)

-- On any bytes and any replies of the kernel, if no part needs a fake packet or a random offset and
-- none is left to put back, the loop returns: the buffer holds every byte that a parser reads, that a
-- piece is sent from, and that is changed for urgent data, where the request and the `bfsize` bytes lie
-- in it and `lp` is not behind the request.
pub split_loop-Returns :
    (dp : SplitParams) (c : Call) (n : ℕ) (ps : List (Part × ℕ)) (i lp part_sent : ℕ) (info : Info)
    (rnd : Stream) (k : Kernel)
    → n ≤ length c.buf
    → c.bfsize ≤ length c.buf
    → lp ≤ n
    → Clean k
    → AllPlain ps
    → (r : Outcome) × (split_loop dp c n ps i lp part_sent info rnd k ≡ some r)
unfolding split_loop
split_loop-Returns dp c n ps i lp part_sent info rnd k b s l z h =
    let (r, e, u) = go ps i lp part_sent info rnd k l z h in (r, e)
  where
    go :
        (ps : List (Part × ℕ)) (i lp part_sent : ℕ) (info : Info) (rnd : Stream) (k : Kernel)
        → lp ≤ n
        → Clean k
        → AllPlain ps
        → Returns (split_loop dp c n ps i lp part_sent info rnd k) Any
    go [] i lp part_sent info rnd k l z h = rest-Returns c.buf c.offset lp n part_sent k b z
    go ((part, d) ∷ more) i lp part_sent info rnd k l z (p, f, h) =
        bind_Any (gen_offset rnd part.at part.flag c.buf n lp info) _
          (gen_offset-Returns rnd part.at part.flag c.buf n lp info f b)
          (λ (off, seen, rnd').
            by_choice-Any lp n (choose c part.flag (i + 1) lp n (off +ℤ pos (part.s * d))) _ _ _
              (choose-Chosen c part.flag (i + 1) lp n (off +ℤ pos (part.s * d)) l)
              (go more (i + 1) lp part_sent seen rnd' k l z h)
              (rest-Returns c.buf c.offset lp n part_sent k b z)
              (λ q v w.
                bind_With CleanSent _ _
                  (if-cases (λ r. Returns r CleanSent) (i + 1 == c.part_skip) _ _
                    (λ y. (_, refl, z))
                    (λ y.
                      send_part-Returns dp c n seen part.m d lp (q - lp) (i + 1) k p (omega arith) s
                        z))
                  (λ sent sz.
                    by_sent-Any sent _ _ sz (_, refl, tt)
                      (λ s' k1 last z1.
                        bind_With CleanAfter _ _
                          (after_part-Returns c.buf dp.wait_send c.part_skip c.offset lp q (i + 1)
                            s' k1 z1)
                          (λ after za.
                            by_after-Any after _ za
                              (λ k2 z2. go more (i + 1) q (i + 1) last rnd' k2 w z2 h))))))
