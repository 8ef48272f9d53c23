-- ===== src/Desync/Split/Clean.antt =====
-- The steps of the loop of desync.c on parts without a fake packet.
use byedpi.Prelude.{
  ℕ, ◌+◌, ◌-◌, ◌*◌, ◌/◌, ◌≤◌, ◌<◌, ◌≡◌, ◌⊎◌, inl, inr, refl, has, Bool, true, false, Option, none,
  some, List, [], ◌∷◌, arith, leb, ltb, ◌==◌, ◌!=◌, ◌||◌, ◌&&◌, if-cases, if◌then◌else◌, ◌>>=◌,
  Returns, Bytes, length, read, read-byte_at, store, store-overwrite, overwrite, length-overwrite,
  load, load-slice,
}
use byedpi.Prelude.Int.{ℤ, pos, negsuc, pos_part, sub_ℕ}
use byedpi.Desync.Offset.{
  Mode, none_mode, split, disorder, oob, disoob, fake, Part, Info, offset_rand, is_negative,
}
use byedpi.Desync.Kernel.{
  Kernel, tail, Kind, plain, urgent, call, queued, less_one, and_then, send_range, send, send_oob,
  set_md5, undo_md5, undo_ttl, undo_fake, undo_options, restore_state, sock_has_notsent,
}
use byedpi.Desync.Split.{
  SplitParams, Call, Outcome, and_then_some, low_ttl, beside, stop, rest_sent, send_part, send_rest,
  after_part,
}

abbrev pub Any {ℓ} : {A : Type ℓ} → A → Type 0
Any a = Unit

-- Parts that need no fake packet and no random offset.
abbrev pub is_plain : Mode → Bool
is_plain fake = false
is_plain _ = true

abbrev pub AllPlain : List (Part × ℕ) → Type 0
AllPlain [] = Unit
AllPlain ((part, d) ∷ ps) =
    (is_plain part.m ≡ true) × (has part.flag offset_rand ≡ false) × AllPlain ps

-- The socket has no fake to put back.
abbrev pub Clean : Kernel → Type 0
Clean k = k.restore_fake ≡ none

abbrev CleanNext : ℤ × Kernel → Type 0
CleanNext r = Clean r.1

queued-Clean : (kind : Kind) (lp : ℕ) (r : ℤ × Kernel) → Clean r.1 → Clean (queued kind lp r).1
queued-Clean kind lp (pos s, k) h = h
queued-Clean kind lp (negsuc s, k) h = h

less_one-Clean : (r : ℤ × Kernel) → Clean r.1 → Clean (less_one r).1
less_one-Clean (pos s, k) h = h
less_one-Clean (negsuc s, k) h = h

call-Clean : (k : Kernel) (len : ℕ) → Clean k → Clean (call k len).1
unfolding call
call-Clean k len h = h

send-Returns :
    (k : Kernel) (buf : Bytes) (lp len : ℕ)
    → lp + len ≤ length buf
    → Clean k
    → Returns (send k buf lp len) CleanNext
unfolding send send_range
send-Returns k buf lp len b h =
    rw (load-slice buf lp len b) (_, refl, queued-Clean plain lp (call k len) (call-Clean k len h))

send_oob-Returns :
    (k : Kernel) (buf : Bytes) (lp n len : ℕ) (c : ℕ × ℕ)
    → lp ≤ length buf
    → n ≤ length buf - lp
    → Clean k
    → Returns (send_oob k buf lp n len c) CleanNext
unfolding send_oob
send_oob-Returns k buf lp n len c a b h =
    if-cases (λ o. Returns o CleanNext) (leb n len) _ _ (λ y. (_, refl, h)) (λ m. oob (inside m))
  where
    inside : leb n len ≡ false → lp + (len + 1) ≤ length buf
    inside m = ground arith

    oob :
        lp + (len + 1) ≤ length buf
        → Returns {A = ℤ × Kernel}
            (read buf (lp + len) >>= λ rchar.
              store buf (lp + len) ((if c.1 != 0 then c.0 else b'a') ∷ []) >>= λ b'.
              load b' lp (len + 1) >>= λ piece.
              some (queued urgent lp (less_one (call k (len + 1)))))
            CleanNext
    oob i =
        let x = (if c.1 != 0 then c.0 else b'a') ∷ [] in
        rw (read-byte_at buf (lp + len) (omega arith)) (
          rw (store-overwrite buf (lp + len) x (omega arith)) (
            rw
              (load-slice (overwrite buf (lp + len) x) lp (len + 1)
                (omega (arith, length-overwrite buf (lp + len) x)))
              (
                _,
                refl,
                queued-Clean urgent lp _
                    (less_one-Clean (call k (len + 1)) (call-Clean k (len + 1) h)),
              )))

low_ttl-Returns :
    (d : ℕ) (k : Kernel) (f : Kernel → Option (ℤ × Kernel))
    → Clean k
    → ((k' : Kernel) → Clean k' → Returns (f k') CleanNext)
    → Returns (low_ttl d k f) CleanNext
low_ttl-Returns d k f h g =
    if-cases (λ o. Returns o CleanNext) (d - 2 * (d / 2) == 0) _ _
      (λ y. go (call k 0) (call-Clean k 0 h)) (λ n. g _ h)
  where
    go :
        (r : ℤ × Kernel)
        → Clean r.1
        → Returns (and_then_some r (λ k'. f (record k' { restore_ttl = true }))) CleanNext
    go (pos s, k') h' = g _ h'
    go (negsuc s, k') h' = (_, refl, h')

abbrev pub CleanSent : Option (ℤ × Kernel) × Info → Type 0
CleanSent (none, info) = Unit
CleanSent (some r, info) = Clean r.1

beside-Returns :
    (info : Info) (r : Option (ℤ × Kernel))
    → Returns r CleanNext
    → Returns (beside info r) CleanSent
beside-Returns info r (x, e, h) = rw e (_, refl, h)

-- The buffer holds the piece and, for the byte behind it, `bfsize` bytes.
pub send_part-Returns :
    (dp : SplitParams) (c : Call) (n : ℕ) (info : Info) (m : Mode) (d lp len i : ℕ) (k : Kernel)
    → is_plain m ≡ true
    → lp + len ≤ length c.buf
    → c.bfsize ≤ length c.buf
    → Clean k
    → Returns (send_part dp c n info m d lp len i k) CleanSent
unfolding send_part
send_part-Returns dp c n info none_mode d lp len i k p b f h =
    beside-Returns info _ (send-Returns k c.buf lp len b h)
send_part-Returns dp c n info split d lp len i k p b f h =
    beside-Returns info _ (send-Returns k c.buf lp len b h)
send_part-Returns dp c n info disorder d lp len i k p b f h =
    beside-Returns info _ (low_ttl-Returns d k _ h (λ k' h'. send-Returns k' c.buf lp len b h'))
send_part-Returns dp c n info oob d lp len i k p b f h =
    beside-Returns info _
      (send_oob-Returns k c.buf lp (c.bfsize - lp) len dp.oob_char (omega arith) (omega arith) h)
send_part-Returns dp c n info disoob d lp len i k p b f h = beside-Returns info _ (
    low_ttl-Returns d k _ h (λ k' h'.
      send_oob-Returns k' c.buf lp (c.bfsize - lp) len dp.oob_char (omega arith) (omega arith) h'))
send_part-Returns dp c n info fake d lp len i k p b f h = absurd (grind arith)

pub rest-Returns :
    (buf : Bytes) (o lp n i : ℕ) (k : Kernel)
    → n ≤ length buf
    → Clean k
    → Returns (send_rest buf o lp n i k) Any
unfolding send_rest
rest-Returns buf o lp n i k b h =
    if-cases (λ r. Returns r Any) (ltb lp n)
      (send k buf lp (n - lp) >>= λ r. some (rest_sent o lp n i r)) (some (stop (sub_ℕ n o) i k))
      (λ y.
        let (r, e, _) = send-Returns k buf lp (n - lp) (omega (arith, below y)) h in
        rw e (_, refl, tt))
      (λ m. (_, refl, tt))
  where
    below : ltb lp n ≡ true → lp < n
    below y = ground arith

abbrev pub CleanAfter : Outcome ⊎ Kernel → Type 0
CleanAfter (inl done) = Unit
CleanAfter (inr k) = Clean k

undo_options-Clean : (k : Kernel) → Clean k → Clean (undo_options k)
unfolding undo_md5 set_md5 undo_ttl
undo_options-Clean k h = ttl (undo_md5 k.restore_md5 k).restore_ttl _ (md5 k.restore_md5)
  where
    done : (r : ℤ × Kernel) → Clean r.1 → Clean (and_then r (λ k'. call k' 0)).1
    done (pos s, k') h' = call-Clean k' 0 h'
    done (negsuc s, k') h' = h'

    md5 : (b : Bool) → Clean (undo_md5 b k)
    md5 false = h
    md5 true = done (call k 0) (call-Clean k 0 h)

    ttl : (b : Bool) (k' : Kernel) → Clean k' → Clean (undo_ttl b k')
    ttl false k' h' = h'
    ttl true k' h' = call-Clean k' 0 h'

pub after_part-Returns :
    (buf : Bytes) (wait_send : Bool) (part_skip o lp q i : ℕ) (s : ℤ) (k : Kernel)
    → Clean k
    → Returns (after_part buf wait_send part_skip o lp q i s k) CleanAfter
unfolding after_part sock_has_notsent restore_state undo_fake
after_part-Returns buf wait_send part_skip o lp q i s k h =
    if-cases (λ r. Returns r CleanAfter) (is_negative s) _ _ (λ y. (_, refl, tt))
      (λ y.
        if-cases (λ r. Returns r CleanAfter) (pos_part s != q - lp) _ _ (λ y. (_, refl, tt))
          (λ y.
            if-cases (λ r. Returns r CleanAfter)
              ((sock_has_notsent k).0 || (wait_send && ltb part_skip i)) _ _ (λ y. (_, refl, tt))
              (λ y. rw h (
                _,
                refl,
                undo_options-Clean (record k { notsent = tail k.notsent; restore_fake = none })
                    refl,
              ))))
