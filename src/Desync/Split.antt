-- ===== src/Desync/Split.antt =====
-- The loop of desync.c that sends a request in parts: desync without its logging, for Linux, where
-- send_fake never asks to wait. The offset is at most `n` at the call.
pub mod Steps
pub mod Tiling
pub mod Clean
pub mod Total
pub mod Resume
use byedpi.Prelude.{
  ℕ, ◌+◌, ◌-◌, ◌*◌, ◌/◌, ◌⊎◌, inl, inr, ◌&&◌, ◌||◌, not, Bool, true, false, Option, none, some,
  List, [], ◌∷◌, Bytes, min, ltb, has, ◌==◌, ◌!=◌, if◌then◌else◌, ◌>>=◌,
}
use byedpi.Prelude.Int.{ℤ, pos, negsuc, pos_part, sub_ℕ, ◌+ℤ◌, ltb_ℤ}
use byedpi.Packets.Edit.{Stream}
use byedpi.Desync.Offset.{
  Mode, none_mode, split, disorder, oob, disoob, fake, Part, passes, Info, no_info, is_negative,
  offset_start, gen_offset,
}
use byedpi.Desync.Tamp.{TampParams, tamp}
use byedpi.Desync.Kernel.{
  Kernel, call, and_then, queued, plain, send, send_oob, send_fake, restore_state, sock_has_notsent,
}
use byedpi.Desync.Fake.{FakeParams, Packet, get_tcp_fake}

-- struct desync_params and params, as far as desync reads them itself.
pub record SplitParams : Type 0 where
  pub parts : List Part
  pub md5sig : Bool
  pub wait_send : Bool
  pub fakes : FakeParams
  pub tamps : TampParams
  pub oob_char : ℕ × ℕ

-- What the call is given: the buffer and its size, how far earlier calls came, and the results of
-- rand() for each part.
pub record Call : Type 0 where
  pub buf : Bytes
  pub bfsize : ℕ
  pub offset : ℕ
  pub skip : ℕ
  pub part_skip : ℕ
  pub fuel : ℕ
  pub draws : ℕ → ℕ → Stream

-- The returned number, `*wait`, the new `part_sent`, and the socket.
pub record Outcome : Type 0 where
  pub ret : ℤ
  pub wait : Bool
  pub part_sent : ℕ
  pub kernel : Kernel

abbrev pub and_then_some : ℤ × Kernel → (Kernel → Option (ℤ × Kernel)) → Option (ℤ × Kernel)
and_then_some (pos s, k) f = f k
and_then_some (negsuc s, k) f = some (negsuc 0, k)

-- DESYNC_DISORDER and DESYNC_DISOOB: every second pass is sent with a TTL of 1.
abbrev pub low_ttl : ℕ → Kernel → (Kernel → Option (ℤ × Kernel)) → Option (ℤ × Kernel)
low_ttl d k f =
    let go = λ (k' : Kernel). f (record k' { restore_ttl = true }) in
    if d - 2 * (d / 2) == 0 then and_then_some (call k 0) go else go k

-- A piece that was sent, beside what is known of the request.
abbrev pub beside : Info → Option (ℤ × Kernel) → Option (Option (ℤ × Kernel) × Info)
beside info sent = sent >>= λ r. some (some r, info)

-- The result of get_tcp_fake, sent if the part is not empty; none if there is no packet.
abbrev pub fake_sent : Bool → ℕ → ℕ → Kernel → Option Packet × Info → Option (ℤ × Kernel) × Info
fake_sent md5sig lp len k (none, seen) = (none, seen)
fake_sent md5sig lp len k (some pkt, seen) =
    (some (if len == 0 then (pos 0, k) else send_fake md5sig k lp len), seen)

-- switch (part.m): the number of bytes taken, or none where desync gives up at once.
unfoldable pub send_part :
    SplitParams
    → Call
    → ℕ
    → Info
    → Mode
    → ℕ
    → ℕ
    → ℕ
    → ℕ
    → Kernel
    → Option (Option (ℤ × Kernel) × Info)
send_part dp c n info fake d lp len i k = do
  let (mapped, k') = call k 0
  made ← get_tcp_fake c.fuel (c.draws i) dp.fakes (not (is_negative mapped)) c.buf n info
  some (fake_sent dp.md5sig lp len k' made)
send_part dp c n info oob d lp len i k =
    beside info (send_oob k c.buf lp (c.bfsize - lp) len dp.oob_char)
send_part dp c n info disorder d lp len i k = beside info (low_ttl d k (λ k'. send k' c.buf lp len))
send_part dp c n info disoob d lp len i k =
    beside info (low_ttl d k (λ k'. send_oob k' c.buf lp (c.bfsize - lp) len dp.oob_char))
send_part dp c n info split d lp len i k = beside info (send k c.buf lp len)
send_part dp c n info none_mode d lp len i k = beside info (send k c.buf lp len)

abbrev pub stop : ℤ → ℕ → Kernel → Outcome
stop ret part_sent k = record { ret = ret; wait = false; part_sent = part_sent; kernel = k }

abbrev pub rest_sent : ℕ → ℕ → ℕ → ℕ → ℤ × Kernel → Outcome
rest_sent offset lp n part_sent (s, k) =
    if is_negative s
    then stop (if k.eagain then sub_ℕ lp offset else negsuc 0) part_sent k
    else stop (sub_ℕ n offset) part_sent k

-- send all/rest
unfoldable pub send_rest : Bytes → ℕ → ℕ → ℕ → ℕ → Kernel → Option Outcome
unfolding send
send_rest buf offset lp n part_sent k =
    if ltb lp n
    then (do r ← send k buf lp (n - lp); some (rest_sent offset lp n part_sent r))
    else some (stop (sub_ℕ n offset) part_sent k)

-- What follows the switch: an outcome, or the socket with which the loop goes on.
unfoldable pub after_part :
    Bytes → Bool → ℕ → ℕ → ℕ → ℕ → ℕ → ℤ → Kernel → Option (Outcome ⊎ Kernel)
after_part buf wait_send part_skip offset lp q i s k =
    if is_negative s
    then some (inl (stop (if k.eagain then sub_ℕ lp offset else negsuc 0) i k))
    else if pos_part s != q - lp
    then some (inl (stop (sub_ℕ (lp + pos_part s) offset) i k))
    else (let (busy, k') = sock_has_notsent k in
        if busy || (wait_send && ltb part_skip i)
        then some (inl (record { ret = sub_ℕ q offset; wait = true; part_sent = i; kernel = k' }))
        else (do k2 ← restore_state buf k'; some (inr k2)))

-- The tests in front of the switch.
pub data Choice : Type 0 where
  skip_it leave : Choice
  take : ℕ → Choice

unfoldable pub choose : Call → ℕ → ℕ → ℕ → ℕ → ℤ → Choice
choose c flag i lp n p =
    if ((c.skip != 0 && ltb_ℤ p (pos c.skip)) || ltb i c.part_skip) && not (has flag offset_start)
    then skip_it
    else if c.offset != 0 && ltb_ℤ p (pos c.offset)
    then skip_it
    else if is_negative p || ltb_ℤ p (pos lp)
    then leave
    else take (min (pos_part p) n)

abbrev pub by_choice {ℓ} : {A : Type ℓ} → Choice → A → A → (ℕ → A) → A
by_choice skip_it x y f = x
by_choice leave x y f = y
by_choice (take q) x y f = f q

abbrev pub by_sent {ℓ} : {A : Type ℓ} → Option (ℤ × Kernel) × Info → A → (ℤ → Kernel → Info → A) → A
by_sent (none, info) x f = x
by_sent (some (s, k), info) x f = f s k info

abbrev pub by_after : Outcome ⊎ Kernel → (Kernel → Option Outcome) → Option Outcome
by_after (inl done) f = some done
by_after (inr k) f = f k

-- `i` is curr_part before the pass, `part_sent` the field of struct eval.
unfoldable pub split_loop :
    SplitParams → Call → ℕ → List (Part × ℕ) → ℕ → ℕ → ℕ → Info → Stream → Kernel → Option Outcome
unfolding send_part
split_loop dp c n [] i lp part_sent info rnd k = send_rest c.buf c.offset lp n part_sent k
split_loop dp c n ((part, d) ∷ more) i lp part_sent info rnd k = do
  (off, seen, rnd') ← gen_offset rnd part.at part.flag c.buf n lp info
  by_choice (choose c part.flag (i + 1) lp n (off +ℤ pos (part.s * d)))
      (split_loop dp c n more (i + 1) lp part_sent seen rnd' k)
      (send_rest c.buf c.offset lp n part_sent k)
      (λ q. do
        sent ←
            if i + 1 == c.part_skip
            then some (some (pos (q - lp), k), seen)
            else send_part dp c n seen part.m d lp (q - lp) (i + 1) k
        by_sent sent (some (stop (negsuc 0) part_sent k)) (λ s k1 last.
            after_part c.buf dp.wait_send c.part_skip c.offset lp q (i + 1) s k1 >>= λ after.
            by_after after (λ k2. split_loop dp c n more (i + 1) q (i + 1) last rnd' k2)))

-- The buffer afterwards, and `*np`, beside the outcome.
unfoldable pub desync : SplitParams → Call → ℕ → Stream → Kernel → Option (Bytes × ℕ × Outcome)
unfolding split_loop
desync dp c np rnd k = do
  (b, n, info, rnd') ←
      if c.skip == 0
      then tamp dp.tamps rnd c.buf c.bfsize np no_info
      else some (c.buf, np, no_info, rnd)
  done ← split_loop dp (record c { buf = b }) n (passes dp.parts) 0 c.offset c.part_skip info rnd' k
  some (b, n, done)
