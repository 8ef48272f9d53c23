-- ===== src/Desync/Split/Resume.antt =====
-- What a resumed call of desync of desync.c does with the part it stopped at.
use byedpi.Prelude.{
  ℕ, ◌+◌, ◌-◌, ◌*◌, ◌<◌, ◌≤◌, ◌≡◌, inr, refl, ap, has, Bool, true, false, none, some, [], ◌∷◌,
  arith, Bytes, length, load-slice, ◌!=◌, ltb, lt→ltb, min,
}
use byedpi.Prelude.Int.{pos, sub_ℕ, ◌+ℤ◌, int_laws}
use byedpi.Packets.Edit.{Stream}
use byedpi.Desync.Offset.{split, Part, no_info, plain_offset, gen_offset}
use byedpi.Desync.Kernel.{
  Kernel, again, plain, call, send_range, send, sock_has_notsent, undo_fake, undo_md5, undo_ttl,
  restore_state,
}
use byedpi.Desync.Split.{
  SplitParams, Call, Outcome, stop, send_part, send_rest, after_part, take, choose, split_loop,
}

-- A call before anything is sent, with the part_sent of the call before.
abbrev pub resumed : Bytes → ℕ → ℕ → Call
resumed buf bfsize part_skip = record {
  buf = buf;
  bfsize = bfsize;
  offset = 0;
  skip = 0;
  part_skip = part_skip;
  fuel = 0;
  draws = λ i j l. 0;
}

abbrev pub willing : Kernel
willing = record {
  replies = [];
  notsent = [];
  eagain = true;
  sent = [];
  restore_ttl = false;
  restore_md5 = false;
  restore_fake = none;
}

-- A socket that answers EAGAIN once, and then takes everything.
abbrev pub refusing : Kernel
refusing = record willing { replies = again ∷ [] }

abbrev pub part_at : ℕ → Part
part_at q = record { m = split; flag = 0; at = pos q; r = 1; s = 0 }

choose-resumed :
    (buf : Bytes) (bfsize n q s : ℕ)
    → q < n
    → ltb 1 s ≡ false
    → choose (resumed buf bfsize s) 0 1 0 n (pos q +ℤ pos (0 * 0)) ≡ take q
unfolding choose has
choose-resumed buf bfsize n q s h f =
    rw (sum_zero q) (rw f (rw (not_behind q) (ap take (least q n h))))
  where
    sum_zero : (q : ℕ) → pos q +ℤ pos 0 ≡ pos q
    sum_zero q = grind int_laws

    not_behind : (q : ℕ) → ltb (q + 0) 0 ≡ false
    not_behind q = ground arith

    least : (q n : ℕ) → q < n → min q n ≡ q
    least q n h = ground arith

same : (q : ℕ) → (q - 0 != q - 0) ≡ false
same q = ground arith

after_part-resumed :
    (buf : Bytes) (w : Bool) (q : ℕ)
    → after_part buf w 1 0 0 q 1 (pos (q - 0)) willing ≡ some (inr willing)
unfolding after_part sock_has_notsent restore_state undo_fake undo_md5 undo_ttl
after_part-resumed buf true q = rw (same q) refl
after_part-resumed buf false q = rw (same q) refl

send_rest-resumed :
    (buf : Bytes) (n q : ℕ)
    → q < n
    → n ≤ length buf
    → send_rest buf 0 q n 1 willing
      ≡ some (
          stop (pos n) 1 (record willing { sent = record { kind = plain; from = q; to = n } ∷ [] }))
unfolding send_rest send send_range call
send_rest-resumed buf n q h l =
    rw (lt→ltb q n h, load-slice buf q (n - q) (omega arith))
      (rw (whole_size n) (rw (to_end q n h) refl))
  where
    whole_size : (n : ℕ) → sub_ℕ n 0 ≡ pos n
    whole_size n = ground arith

    to_end : (q n : ℕ) → q < n → q + (n - q) ≡ n
    to_end q n h = omega arith

-- What the first call leaves: nothing is sent.
abbrev refused : Outcome
refused = stop (pos 0) 1 willing

first_call :
    (dp : SplitParams) (buf : Bytes) (bfsize n q : ℕ) (rnd : Stream)
    → q < n
    → n ≤ length buf
    → split_loop dp (resumed buf bfsize 0) n ((part_at q, 0) ∷ []) 0 0 0 no_info rnd refusing
      ≡ some refused
unfolding split_loop gen_offset plain_offset has send_part send send_range call after_part
first_call dp buf bfsize n q rnd h l =
    rw (choose-resumed buf bfsize n q 0 h refl) (rw (load-slice buf 0 (q - 0) (omega arith)) refl)

second_call :
    (dp : SplitParams) (buf : Bytes) (bfsize n q : ℕ) (rnd : Stream)
    → q < n
    → n ≤ length buf
    → split_loop dp (resumed buf bfsize 1) n ((part_at q, 0) ∷ []) 0 0 1 no_info rnd willing
      ≡ some (
          stop (pos n) 1 (record willing { sent = record { kind = plain; from = q; to = n } ∷ [] }))
unfolding split_loop gen_offset plain_offset has
second_call dp buf bfsize n q rnd h l =
    rw (choose-resumed buf bfsize n q 1 h refl)
      (rw (after_part-resumed buf dp.wait_send q) (send_rest-resumed buf n q h l))

-- A request with a cut at `q`, on a socket that answers EAGAIN once and then takes everything: the
-- first call reports 0 and has sent nothing, and the call that follows it, with the part_sent and the
-- socket that the first one left, reports the whole request, while only the bytes from the cut on
-- were sent.
pub split_loop_loses :
    (dp : SplitParams) (buf : Bytes) (bfsize n q : ℕ) (rnd rnd' : Stream)
    → q < n
    → n ≤ length buf
    → (r : Outcome) × (split_loop dp
          (resumed buf bfsize 0)
          n
          ((part_at q, 0) ∷ [])
          0
          0
          0
          no_info
          rnd
          refusing
        ≡ some r)
      × (r.ret ≡ pos 0)
      × (r.kernel.sent ≡ [])
      × (split_loop dp
            (resumed buf bfsize r.part_sent)
            n
            ((part_at q, 0) ∷ [])
            0
            0
            r.part_sent
            no_info
            rnd'
            r.kernel
          ≡ some (
              stop
                (pos n)
                1
                (record willing { sent = record { kind = plain; from = q; to = n } ∷ [] })))
split_loop_loses dp buf bfsize n q rnd rnd' h l = (
  refused,
  first_call dp buf bfsize n q rnd h l,
  refl,
  refl,
  second_call dp buf bfsize n q rnd' h l,
)
