-- ===== src/Desync/Split/Steps.antt =====
-- What each step of the loop of desync.c has sent.
use byedpi.Prelude.{
  ℕ, not, ◌+◌, ◌-◌, ◌*◌, ◌≤◌, ◌≡◌, refl, ◌⊎◌, inl, inr, sym, Bytes, read, store, load, leb, Bool,
  true, false, Option, none, some, arith, ltb, ◌==◌, ◌!=◌, ◌||◌, ◌&&◌, ◌/◌, if◌then◌else◌, ◌>>=◌,
  Bool-cases,
}
use byedpi.Prelude.Int.{ℤ, pos, negsuc, sub_ℕ}
use byedpi.Desync.Offset.{Mode, none_mode, split, disorder, oob, disoob, fake, Info, is_negative}
use byedpi.Desync.Kernel.{Kernel, call, send, send_oob, restore_state, undo_fake, sock_has_notsent}
use byedpi.Desync.Kernel.Queue.{
  Tiles, Pending, Reaches, Waits, Stepped, Reaches-Waits, Reaches-Quiet, call-Quiet, send-Stepped,
  send_oob-Stepped, send_fake-Stepped, undo_fake-Reaches, undo_options-Reaches,
}
use byedpi.Desync.Fake.{Packet, get_tcp_fake}
use byedpi.Desync.Split.{
  SplitParams, Call, Outcome, and_then_some, low_ttl, beside, fake_sent, send_part, stop, rest_sent,
  send_rest, after_part,
}

-- If the number is not negative, the pieces tile that many bytes of the buffer from `o` on, and each
-- that holds other bytes is one that the next restore_state writes over.
abbrev pub Sends : ℕ → Outcome → Type 0
Sends o r =
    (m : ℕ)
    → r.ret ≡ pos m
    → Tiles o r.kernel.sent (o + m) × Pending r.kernel.restore_fake r.kernel.sent

-- A result has the property, if there is one.
pub data Unless {ℓ κ} {A : Type ℓ} (P : A → Type κ) : Option A → Type (ℓ ⊔ κ) where
  fault : Unless P none
  fine : (a : A) → P a → Unless P (some a)

abbrev pub AfterPart : ℕ → ℕ → Outcome ⊎ Kernel → Type 0
AfterPart o q (inl done) = Sends o done
AfterPart o q (inr k) = Reaches o q k

distance : (o e m : ℕ) → o ≤ e → sub_ℕ e o ≡ pos m → o + m ≡ e
distance o e m h q = ground arith

pub no_count : (m : ℕ) → negsuc 0 ≡ pos m → ⊥
no_count m q = ground arith

Waits-Sends :
    (o e i : ℕ) (wait : Bool) (k : Kernel)
    → o ≤ e
    → Waits o e k
    → Sends o (record { ret = sub_ℕ e o; wait = wait; part_sent = i; kernel = k })
Waits-Sends o e i wait k h (w, t, p) m q = rw (distance o e m h q) (t, p)

-- The result of a call that failed.
gives_up :
    (o lp i : ℕ) (k : Kernel)
    → o ≤ lp
    → Waits o lp k
    → Sends o (stop (if k.eagain then sub_ℕ lp o else negsuc 0) i k)
gives_up o lp i k h r = go k.eagain
  where
    go : (b : Bool) → Sends o (stop (if b then sub_ℕ lp o else negsuc 0) i k)
    go true = Waits-Sends o lp i false k h r
    go false = λ m q. absurd (no_count m q)

moved : (o e e' : ℕ) (k : Kernel) → e ≡ e' → Waits o e k → Waits o e' k
moved o e e' k p (w, t, r) = (w, rw (sym p) t, r)

pub Unless->>= {ℓ κ ν μ} :
    {A : Type ℓ} {B : Type κ} {P : A → Type ν} {Q : B → Type μ} (m : Option A) (f : A → Option B)
    → Unless P m
    → ((a : A) → P a → Unless Q (f a))
    → Unless Q (m >>= f)
Unless->>= m f fault g = fault
Unless->>= m f (fine a p) g = g a p

pub Unless-any {ℓ} : {A : Type ℓ} (m : Option A) → Unless (λ a. Unit {0}) m
Unless-any none = fault
Unless-any (some a) = fine a tt

Unless-if {ℓ κ} :
    {A : Type ℓ} {P : A → Type κ} (b : Bool) (x y : Option A)
    → Unless P x
    → Unless P y
    → Unless P (if b then x else y)
Unless-if true x y g h = g
Unless-if false x y g h = h

send-Unless :
    (o lp len : ℕ) (buf : Bytes) (k : Kernel)
    → Reaches o lp k
    → Unless (Stepped o lp len) (send k buf lp len)
unfolding send
send-Unless o lp len buf k h =
    Unless->>= _ _ (Unless-any (load buf lp len)) (λ x _. fine _ (send-Stepped o lp len k h))

send_oob-Unless :
    (o lp n len : ℕ) (buf : Bytes) (c : ℕ × ℕ) (k : Kernel)
    → Reaches o lp k
    → Unless (Stepped o lp len) (send_oob k buf lp n len c)
unfolding send_oob
send_oob-Unless o lp n len buf c k h = Unless-if (leb n len) _ _ (fine _ (Reaches-Waits o lp k h)) (
    Unless->>= _ _ (Unless-any (read buf (lp + len))) (λ x _.
      Unless->>= _ _ (Unless-any (store buf (lp + len) _)) (λ b _.
        Unless->>= _ _ (Unless-any (load b lp (len + 1)))
          (λ y _. fine _ (send_oob-Stepped o lp len k h)))))

pub send_rest-Sends :
    (buf : Bytes) (o lp n i : ℕ) (k : Kernel)
    → o ≤ lp
    → lp ≤ n
    → Reaches o lp k
    → Unless (Sends o) (send_rest buf o lp n i k)
unfolding send_rest
send_rest-Sends buf o lp n i k a b h = elim (Bool-cases (ltb lp n)) [
  | inl y ↦ rw y (Unless->>= _ _ (send-Unless o lp (n - lp) buf k h) (λ r w. fine _ (go r w)))
  | inr n' ↦ rw n' (
      fine _ (
        Waits-Sends o n i false k (omega arith)
          (moved o lp n k (ground arith) (Reaches-Waits o lp k h))))
]
  where
    go : (r : ℤ × Kernel) → Stepped o lp (n - lp) r → Sends o (rest_sent o lp n i r)
    go (pos s, k') (e, h') =
        Waits-Sends o n i false k' (omega arith) (moved o (lp + (n - lp)) n k' (omega arith) h')
    go (negsuc s, k') h' = gives_up o lp i k' a h'

restore_state-Reaches :
    (buf : Bytes) (o e : ℕ) (k : Kernel) → Waits o e k → Unless (Reaches o e) (restore_state buf k)
unfolding restore_state
restore_state-Reaches buf o e k (w, t, p) =
    Unless->>= _ _ (restored (undo_fake buf k.restore_fake k) refl)
      (λ k1 h. fine _ (undo_options-Reaches o e k1 h))
  where
    restored : (r : Option Kernel) → undo_fake buf k.restore_fake k ≡ r → Unless (Reaches o e) r
    restored none q = fault
    restored (some k') q = fine k' (undo_fake-Reaches buf o e k.restore_fake k k' w t p q)

pub after_part-AfterPart :
    (buf : Bytes) (wait_send : Bool) (part_skip o lp q i : ℕ) (s : ℤ) (k : Kernel)
    → o ≤ lp
    → lp ≤ q
    → Stepped o lp (q - lp) (s, k)
    → Unless (AfterPart o q) (after_part buf wait_send part_skip o lp q i s k)
unfolding after_part sock_has_notsent
after_part-AfterPart buf wait_send part_skip o lp q i (negsuc s) k a b h =
    fine _ (gives_up o lp i k a h)
after_part-AfterPart buf wait_send part_skip o lp q i (pos s) k a b (e, h) =
    let (busy, k') = sock_has_notsent k in
    let at_q = moved o (lp + (q - lp)) q k (omega arith) h in
    Unless-if (s != q - lp) _ _
      (fine _ (
        Waits-Sends o (lp + s) i false k (omega arith)
          (moved o (lp + (q - lp)) (lp + s) k (omega arith) h)))
      (Unless-if (busy || (wait_send && ltb part_skip i)) _ _
        (fine _ (Waits-Sends o q i true k' (omega arith) at_q))
        (Unless->>= _ _ (restore_state-Reaches buf o q k' at_q) (λ k2 r. fine (inr k2) r)))

-- What send_part gives for a part from `lp` on.
abbrev pub PartSent : ℕ → ℕ → ℕ → Option (ℤ × Kernel) × Info → Type 0
PartSent o lp len (none, info) = Unit
PartSent o lp len (some r, info) = Stepped o lp len r

low_ttl-Stepped :
    (o lp len d : ℕ) (k : Kernel) (f : Kernel → Option (ℤ × Kernel))
    → Reaches o lp k
    → ((k' : Kernel) → Reaches o lp k' → Unless (Stepped o lp len) (f k'))
    → Unless (Stepped o lp len) (low_ttl d k f)
low_ttl-Stepped o lp len d k f h g =
    Unless-if (d - 2 * (d / 2) == 0) _ _
      (go (call k 0) (Reaches-Quiet o lp k (call k 0) h (call-Quiet k 0 h.0))) (g _ h)
  where
    go :
        (r : ℤ × Kernel)
        → Reaches o lp r.1
        → Unless (Stepped o lp len) (and_then_some r (λ k'. f (record k' { restore_ttl = true })))
    go (pos s, k') h' = g _ h'
    go (negsuc s, k') h' = fine _ (Reaches-Waits o lp k' h')

fake_sent-PartSent :
    (o lp len : ℕ) (md5sig : Bool) (k : Kernel) (made : Option Packet × Info)
    → Reaches o lp k
    → PartSent o lp len (fake_sent md5sig lp len k made)
fake_sent-PartSent o lp len md5sig k (none, seen) h = tt
fake_sent-PartSent o lp len md5sig k (some pkt, seen) h = elim (Bool-cases (len == 0)) [
  | inl y ↦ rw y (ground arith, moved o lp (lp + len) k (ground arith) (Reaches-Waits o lp k h))
  | inr n ↦ rw n (send_fake-Stepped o lp len md5sig k h)
]

beside-PartSent :
    (o lp len : ℕ) (info : Info) (r : Option (ℤ × Kernel))
    → Unless (Stepped o lp len) r
    → Unless (PartSent o lp len) (beside info r)
beside-PartSent o lp len info r h = Unless->>= r _ h (λ x p. fine (some x, info) p)

pub send_part-PartSent :
    (dp : SplitParams) (c : Call) (n : ℕ) (info : Info) (m : Mode) (o d lp len i : ℕ) (k : Kernel)
    → Reaches o lp k
    → Unless (PartSent o lp len) (send_part dp c n info m d lp len i k)
unfolding send_part
send_part-PartSent dp c n info none_mode o d lp len i k h =
    beside-PartSent o lp len info _ (send-Unless o lp len c.buf k h)
send_part-PartSent dp c n info split o d lp len i k h =
    beside-PartSent o lp len info _ (send-Unless o lp len c.buf k h)
send_part-PartSent dp c n info disorder o d lp len i k h =
    beside-PartSent o lp len info _
      (low_ttl-Stepped o lp len d k _ h (λ k' h'. send-Unless o lp len c.buf k' h'))
send_part-PartSent dp c n info oob o d lp len i k h =
    beside-PartSent o lp len info _ (send_oob-Unless o lp (c.bfsize - lp) len c.buf dp.oob_char k h)
send_part-PartSent dp c n info disoob o d lp len i k h = beside-PartSent o lp len info _ (
    low_ttl-Stepped o lp len d k _ h
      (λ k' h'. send_oob-Unless o lp (c.bfsize - lp) len c.buf dp.oob_char k' h'))
send_part-PartSent dp c n info fake o d lp len i k h =
    Unless->>= _ _
      (Unless-any
        (get_tcp_fake c.fuel (c.draws i) dp.fakes (not (is_negative (call k 0).0)) c.buf n info))
      (λ made _. fine _ (
        fake_sent-PartSent o lp len dp.md5sig (call k 0).1 made
          (Reaches-Quiet o lp k (call k 0) h (call-Quiet k 0 h.0))))
