-- ===== src/Desync/Kernel/Queue.antt =====
-- What the calls of desync.c leave in the send queue, while the kernel takes all or nothing.
use mathlib.Core.Option.{some-injective}
use byedpi.Prelude.{
  subst, Option, none, if-cases, ◌&&◌, ◌⊎◌, ◌>>=◌, Bytes, load, ℕ, ◌+◌, ◌≤◌, ◌≡◌, refl, ap, ◌∙◌,
  Bool, true, false, some, List, [], ◌∷◌, arith, leb, inl, inr,
}
use byedpi.Prelude.Int.{ℤ, pos, negsuc, sub_ℕ}
use byedpi.Desync.Kernel.{
  Reply, whole, again, broken, short, Kind, Piece, Kernel, call, queued, plain, faked, urgent,
  less_one, send_range, is_faked, put_back, undo_fake, undo_options, and_then, with_amount, set_md5,
  send_fake, undo_md5, undo_ttl,
}

-- No reply is a short one.
abbrev pub AllWhole : List Reply → Type 0
AllWhole [] = Unit
AllWhole (whole ∷ rs) = AllWhole rs
AllWhole (again ∷ rs) = AllWhole rs
AllWhole (broken ∷ rs) = AllWhole rs
AllWhole (short k ∷ rs) = ⊥

-- The pieces, the newest first, lie one behind the other from `o` to `e`, without a gap.
abbrev pub Tiles : ℕ → List Piece → ℕ → Type 0
Tiles o [] e = e ≡ o
Tiles o (p ∷ ps) e = (p.to ≡ e) × (p.from ≤ p.to) × Tiles o ps p.from

-- No piece holds other bytes than those of the buffer.
abbrev pub Real : List Piece → Type 0
Real [] = Unit
Real (p ∷ ps) = (is_faked p.kind ≡ false) × Real ps

-- A piece that does is one that the memcpy of restore_state will write over.
abbrev pub Pending : Option (ℕ × ℕ) → List Piece → Type 0
Pending r [] = Unit
Pending none (p ∷ ps) = (is_faked p.kind ≡ false) × Pending none ps
Pending (some (lp, len)) (p ∷ ps) =
    ((is_faked p.kind ≡ false) ⊎ ((lp ≤ p.from) × (p.to ≤ lp + len))) × Pending (some (lp, len)) ps

pub Real-Pending : (r : Option (ℕ × ℕ)) (ps : List Piece) → Real ps → Pending r ps
Real-Pending none [] h = tt
Real-Pending none (p ∷ ps) (e, h) = (e, Real-Pending none ps h)
Real-Pending (some r) [] h = tt
Real-Pending (some r) (p ∷ ps) (e, h) = (inl e, Real-Pending (some r) ps h)

-- The replies that are left have no short one, and the queue reaches from `o` to `e` with the bytes
-- of the buffer.
abbrev pub Reaches : ℕ → ℕ → Kernel → Type 0
Reaches o e k = AllWhole k.replies × Tiles o k.sent e × Real k.sent

-- The same, but for what restore_state will put back.
abbrev pub Waits : ℕ → ℕ → Kernel → Type 0
Waits o e k = AllWhole k.replies × Tiles o k.sent e × Pending k.restore_fake k.sent

pub Reaches-Waits : (o e : ℕ) (k : Kernel) → Reaches o e k → Waits o e k
Reaches-Waits o e k (w, t, r) = (w, t, Real-Pending k.restore_fake k.sent r)

-- A call took all of `len` or nothing.
abbrev pub Called : Kernel → ℕ → ℤ × Kernel → Type 0
Called k len (pos s, k') =
    (s ≡ len) × AllWhole k'.replies × (k'.sent ≡ k.sent) × (k'.restore_fake ≡ k.restore_fake)
Called k len (negsuc s, k') =
    AllWhole k'.replies × (k'.sent ≡ k.sent) × (k'.restore_fake ≡ k.restore_fake)

abbrev pub Stepped : ℕ → ℕ → ℕ → ℤ × Kernel → Type 0
Stepped o lp len (pos s, k) = (s ≡ len) × Waits o (lp + len) k
Stepped o lp len (negsuc s, k) = Waits o lp k

pub call-Called : (k : Kernel) (len : ℕ) → AllWhole k.replies → Called k len (call k len)
unfolding call
call-Called k len w = go k.replies w
  where
    go : (rs : List Reply) → AllWhole rs → Called k len (call (record k { replies = rs }) len)
    go [] w = (refl, tt, refl, refl)
    go (whole ∷ rs) w = (refl, w, refl, refl)
    go (again ∷ rs) w = (w, refl, refl)
    go (broken ∷ rs) w = (w, refl, refl)
    go (short m ∷ rs) w = absurd w

-- Where the queue is the same and held no other bytes, the condition stands.
kept-Waits :
    (o e : ℕ) (k k' : Kernel)
    → AllWhole k'.replies
    → k'.sent ≡ k.sent
    → Tiles o k.sent e
    → Real k.sent
    → Waits o e k'
kept-Waits o e k k' w q t r = rw q (w, t, Real-Pending k'.restore_fake k.sent r)

queued-Stepped :
    (o lp len : ℕ) (kind : Kind) (k : Kernel) (r : ℤ × Kernel)
    → (is_faked kind ≡ false) ⊎ (k.restore_fake ≡ some (lp, len))
    → Tiles o k.sent lp
    → Real k.sent
    → Called k len r
    → Stepped o lp len (queued kind lp r)
queued-Stepped o lp len kind k (pos s, k') f t h (e, w, q, p) =
    (e, (w, (ap (λ x. lp + x) e, omega arith, rw q t), waits f))
  where
    waits :
        (is_faked kind ≡ false) ⊎ (k.restore_fake ≡ some (lp, len))
        → Pending k'.restore_fake (record { kind = kind; from = lp; to = lp + s } ∷ k'.sent)
    waits (inl z) = rw q (
        Real-Pending k'.restore_fake (record { kind = kind; from = lp; to = lp + s } ∷ k.sent)
          (z, h))
    waits (inr z) =
        rw (p, z, q) (inr (omega arith, omega arith), Real-Pending (some (lp, len)) k.sent h)
queued-Stepped o lp len kind k (negsuc s, k') f t h (w, q, p) = kept-Waits o lp k k' w q t h

pub send-Stepped :
    (o lp len : ℕ) (k : Kernel) → Reaches o lp k → Stepped o lp len (send_range k lp len)
unfolding send_range
send-Stepped o lp len k (w, t, h) =
    queued-Stepped o lp len plain k (call k len) (inl refl) t h (call-Called k len w)

sub_one : (s len : ℕ) → s ≡ len + 1 → sub_ℕ s 1 ≡ pos len
sub_one s len e = ground arith

less_one-Called :
    (k : Kernel) (len : ℕ) (r : ℤ × Kernel) → Called k (len + 1) r → Called k len (less_one r)
less_one-Called k len (pos s, k') (e, w, q, p) = rw (sub_one s len e) (refl, w, q, p)
less_one-Called k len (negsuc s, k') h = h

pub send_oob-Stepped :
    (o lp len : ℕ) (k : Kernel)
    → Reaches o lp k
    → Stepped o lp len (queued urgent lp (less_one (call k (len + 1))))
send_oob-Stepped o lp len k (w, t, h) =
    queued-Stepped o lp len urgent k (less_one (call k (len + 1))) (inl refl) t h
      (less_one-Called k len (call k (len + 1)) (call-Called k (len + 1) w))

-- A call that queues nothing.
abbrev pub Quiet : Kernel → ℤ × Kernel → Type 0
Quiet k r = AllWhole r.1.replies × (r.1.sent ≡ k.sent) × (r.1.restore_fake ≡ k.restore_fake)

pub call-Quiet : (k : Kernel) (m : ℕ) → AllWhole k.replies → Quiet k (call k m)
call-Quiet k m w = go (call k m) (call-Called k m w)
  where
    go : (r : ℤ × Kernel) → Called k m r → Quiet k r
    go (pos s, k') (e, w', q, p) = (w', q, p)
    go (negsuc s, k') h = h

set_md5-Quiet : (md5sig : Bool) (k : Kernel) → AllWhole k.replies → Quiet k (set_md5 md5sig k)
unfolding set_md5
set_md5-Quiet false k w = (w, refl, refl)
set_md5-Quiet true k w = go (call k 0) (call-Quiet k 0 w)
  where
    go : (r : ℤ × Kernel) → Quiet k r → Quiet k (and_then r (λ k'. call k' 0))
    go (pos s, k') (w', q, p) = let (w'', q', p') = call-Quiet k' 0 w' in (w'', q' ∙ q, p' ∙ p)
    go (negsuc s, k') h = h

-- A call in front of another one, whose result only decides whether to go on.
and_then-Stepped :
    (o lp len : ℕ) (k : Kernel) (r : ℤ × Kernel) (f : Kernel → ℤ × Kernel)
    → Reaches o lp k
    → Quiet k r
    → ((k' : Kernel) → Reaches o lp k' → k'.restore_fake ≡ k.restore_fake → Stepped o lp len (f k'))
    → Stepped o lp len (and_then r f)
and_then-Stepped o lp len k (pos s, k') f (w, t, h) (w', q, p) g = g k' (w', rw q t, rw q h) p
and_then-Stepped o lp len k (negsuc s, k') f (w, t, h) (w', q, p) g = kept-Waits o lp k k' w' q t h

pub send_fake-Stepped :
    (o lp len : ℕ) (md5sig : Bool) (k : Kernel)
    → Reaches o lp k
    → Stepped o lp len (send_fake md5sig k lp len)
unfolding send_fake
send_fake-Stepped o lp len md5sig k h =
    and_then-Stepped o lp len k (call k 0) _ h (call-Quiet k 0 h.0) (λ k1 h1 _.
      let j1 = record k1 { restore_fake = some (lp, len) } in
      and_then-Stepped o lp len j1 (call j1 0) _ h1 (call-Quiet j1 0 h1.0) (λ k2 h2 p2.
        let j2 = record k2 { restore_ttl = true } in
        and_then-Stepped o lp len j2 (set_md5 md5sig j2) _ h2 (set_md5-Quiet md5sig j2 h2.0)
          (λ k3 h3 p3.
            let j3 = record k3 { restore_md5 = md5sig } in
            spliced j3 (p3 ∙ p2) h3 (call j3 len) (call-Called j3 len h3.0))))
  where
    spliced :
        (k : Kernel)
        → k.restore_fake ≡ some (lp, len)
        → Reaches o lp k
        → (r : ℤ × Kernel) → Called k len r
        → Stepped o lp len (with_amount r (λ taken k4. queued faked lp (call k4 taken)))
    spliced k z (w, t, h) (pos s, k') (e, w', q, p) = rw e (
        queued-Stepped o lp len faked k' (call k' len) (inr (p ∙ z)) (rw q t) (rw q h)
          (call-Called k' len w'))
    spliced k z (w, t, h) (negsuc s, k') (w', q, p) = kept-Waits o lp k k' w' q t h

pub Reaches-Quiet :
    (o e : ℕ) (k : Kernel) (r : ℤ × Kernel) → Reaches o e k → Quiet k r → Reaches o e r.1
Reaches-Quiet o e k (s, k') (w, t, h) (w', q, p) = (w', rw q t, rw q h)

undo_md5-Reaches : (o e : ℕ) (b : Bool) (k : Kernel) → Reaches o e k → Reaches o e (undo_md5 b k)
unfolding undo_md5
undo_md5-Reaches o e false k h = h
undo_md5-Reaches o e true k h = Reaches-Quiet o e k (set_md5 true k) h (set_md5-Quiet true k h.0)

undo_ttl-Reaches : (o e : ℕ) (b : Bool) (k : Kernel) → Reaches o e k → Reaches o e (undo_ttl b k)
unfolding undo_ttl
undo_ttl-Reaches o e false k h = h
undo_ttl-Reaches o e true k h = Reaches-Quiet o e k (call k 0) h (call-Quiet k 0 h.0)

pub undo_options-Reaches : (o e : ℕ) (k : Kernel) → Reaches o e k → Reaches o e (undo_options k)
undo_options-Reaches o e k h =
    let j = undo_md5 k.restore_md5 k in
    undo_ttl-Reaches o e j.restore_ttl j (undo_md5-Reaches o e k.restore_md5 k h)

Real-none : (ps : List Piece) → Pending none ps → Real ps
Real-none [] h = tt
Real-none (p ∷ ps) (e, h) = (e, Real-none ps h)

-- The memcpy leaves the places as they are, and the bytes of the buffer everywhere.
put_back-Tiles :
    (lp len o e : ℕ) (ps : List Piece)
    → Tiles o ps e
    → Pending (some (lp, len)) ps
    → Tiles o (put_back lp len ps) e × Real (put_back lp len ps)
unfolding put_back
put_back-Tiles lp len o e [] t h = (t, tt)
put_back-Tiles lp len o e (p ∷ ps) (a, b, t) (d, h) =
    let (t', r) = put_back-Tiles lp len o p.from ps t h in
    if-cases (λ q. Tiles o (q ∷ put_back lp len ps) e × Real (q ∷ put_back lp len ps))
      (is_faked p.kind && leb lp p.from && leb p.to (lp + len)) (record p { kind = plain }) p
      (λ y. ((a, b, t'), (refl, r))) (λ n. ((a, b, t'), (left d n, r)))
  where
    left :
        (is_faked p.kind ≡ false) ⊎ ((lp ≤ p.from) × (p.to ≤ lp + len))
        → (is_faked p.kind && leb lp p.from && leb p.to (lp + len)) ≡ false
        → is_faked p.kind ≡ false
    left (inl z) n = z
    left (inr (x, y)) n = ground arith

pub undo_fake-Reaches :
    (buf : Bytes) (o e : ℕ) (r : Option (ℕ × ℕ)) (k k' : Kernel)
    → AllWhole k.replies
    → Tiles o k.sent e
    → Pending r k.sent
    → undo_fake buf r k ≡ some k'
    → Reaches o e k'
unfolding undo_fake
undo_fake-Reaches buf o e none k k' w t h q =
    subst (Reaches o e) (some-injective k k' q) (w, t, Real-none k.sent h)
undo_fake-Reaches buf o e (some (lp, len)) k k' w t h q = go (load buf lp len) q
  where
    go :
        (l : Option Bytes)
        → (l >>= λ orig. some (record k { sent = put_back lp len k.sent; restore_fake = none }))
          ≡ some k'
        → Reaches o e k'
    go none q = absurd cc
    go (some x) q =
        subst (Reaches o e)
          (some-injective (record k { sent = put_back lp len k.sent; restore_fake = none }) k' q)
          (let (t', r) = put_back-Tiles lp len o e k.sent t h in (w, t', r))
