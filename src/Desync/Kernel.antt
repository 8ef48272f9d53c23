-- ===== src/Desync/Kernel.antt =====
-- The calls of desync.c into the kernel, with Linux's code: send, send_oob, send_fake and
-- restore_state. The kernel's replies are a list, one for each call (setttl counts as one); what reached the send queue is
-- kept as ranges of the buffer.
pub mod Queue
use byedpi.Prelude.{
  ℕ, ◌+◌, ◌-◌, Bool, true, false, Option, none, some, List, [], ◌∷◌, min, leb, if◌then◌else◌, ◌>>=◌,
  ◌&&◌, ◌!=◌, Bytes, read, load, store,
}
use byedpi.Prelude.Int.{ℤ, pos, negsuc, sub_ℕ}

-- How a system call ends: it does all, or no more than some bytes, or it returns -1 with EAGAIN or
-- with another error.
pub data Reply : Type 0 where
  whole again broken : Reply
  short : ℕ → Reply

-- A range of the buffer that is in the queue; `faked` holds other bytes until restore_state, and
-- `urgent` has a byte of its own behind it that is out of band.
pub data Kind : Type 0 where
  plain faked urgent : Kind

pub record Piece : Type 0 where
  pub kind : Kind
  pub from : ℕ
  pub to : ℕ

-- The socket, with the newest piece first, `errno == EAGAIN`, and the restore_ fields of struct
-- eval; restore_fake is the place and the length of the original bytes. `notsent` answers
-- sock_has_notsent.
pub record Kernel : Type 0 where
  pub replies : List Reply
  pub notsent : List Bool
  pub eagain : Bool
  pub sent : List Piece
  pub restore_ttl : Bool
  pub restore_md5 : Bool
  pub restore_fake : Option (ℕ × ℕ)

abbrev pub next_reply : List Reply → Reply
next_reply [] = whole
next_reply (r ∷ rs) = r

abbrev pub tail {ℓ} : {A : Type ℓ} → List A → List A
tail [] = []
tail (x ∷ xs) = xs

-- A call that returns -1 or the number of bytes it took, out of `len`.
abbrev amount : Reply → ℕ → ℤ
amount whole len = pos len
amount (short k) len = pos (min k len)
amount again len = negsuc 0
amount broken len = negsuc 0

abbrev errno_of : Reply → Bool → Bool
errno_of again b = true
errno_of broken b = false
errno_of _ b = b

unfoldable pub call : Kernel → ℕ → ℤ × Kernel
call k len = (
  amount (next_reply k.replies) len,
  record k { replies = tail k.replies; eagain = errno_of (next_reply k.replies) k.eagain },
)

-- `count` bytes from `lp` on are in the queue.
abbrev pub queued : Kind → ℕ → ℤ × Kernel → ℤ × Kernel
queued kind lp (pos s, k) =
    (pos s, record k { sent = record { kind = kind; from = lp; to = lp + s } ∷ k.sent })
queued kind lp (negsuc s, k) = (negsuc s, k)

-- send(fd, buffer + lp, len), of bytes that are there.
unfoldable pub send_range : Kernel → ℕ → ℕ → ℤ × Kernel
unfolding call
send_range k lp len = queued plain lp (call k len)

-- The same, with the bytes read from the buffer.
unfoldable pub send : Kernel → Bytes → ℕ → ℕ → Option (ℤ × Kernel)
unfolding send_range
send k buf lp len = do piece ← load buf lp len; some (send_range k lp len)

-- The last byte taken is the urgent one; where none is taken, the result is -1.
abbrev pub less_one : ℤ × Kernel → ℤ × Kernel
less_one (pos s, k) = (sub_ℕ s 1, k)
less_one (negsuc s, k) = (negsuc 0, k)

-- `n` bytes are left in the buffer behind `lp`, and `c` is oob_char. The byte behind the piece is
-- read, written over and sent with it, and put back.
unfoldable pub send_oob : Kernel → Bytes → ℕ → ℕ → ℕ → ℕ × ℕ → Option (ℤ × Kernel)
unfolding call
send_oob k buf lp n len c = if leb n len then some (negsuc 0, k) else (do
  rchar ← read buf (lp + len)
  b ← store buf (lp + len) ((if c.1 != 0 then c.0 else b'a') ∷ [])
  piece ← load b lp (len + 1)
  some (queued urgent lp (less_one (call k (len + 1)))))

-- A call that the code takes as done, or as failed with the result -1.
abbrev pub and_then : ℤ × Kernel → (Kernel → ℤ × Kernel) → ℤ × Kernel
and_then (pos s, k) f = f k
and_then (negsuc s, k) f = (negsuc 0, k)

abbrev pub with_amount : ℤ × Kernel → (ℕ → Kernel → ℤ × Kernel) → ℤ × Kernel
with_amount (pos s, k) f = f s k
with_amount (negsuc s, k) f = (negsuc 0, k)

unfoldable pub set_md5 : Bool → Kernel → ℤ × Kernel
unfolding call
set_md5 false k = (pos 0, k)
set_md5 true k = and_then (call k 0) (λ k'. call k' 0)

-- pipe, setttl, getpeername and setsockopt for MD5, vmsplice, splice.
unfoldable pub send_fake : Bool → Kernel → ℕ → ℕ → ℤ × Kernel
unfolding call set_md5
send_fake md5sig k lp len = and_then (call k 0) (λ k1.
    and_then (call (record k1 { restore_fake = some (lp, len) }) 0) (λ k2.
      and_then (set_md5 md5sig (record k2 { restore_ttl = true })) (λ k3.
        with_amount (call (record k3 { restore_md5 = md5sig }) len)
          (λ taken k4. queued faked lp (call k4 taken)))))

-- Results of the calls that put the options back are not looked at.
unfoldable pub undo_md5 : Bool → Kernel → Kernel
unfolding set_md5
undo_md5 false k = k
undo_md5 true k = (set_md5 true k).1

unfoldable pub undo_ttl : Bool → Kernel → Kernel
unfolding call
undo_ttl false k = k
undo_ttl true k = (call k 0).1

abbrev pub is_faked : Kind → Bool
is_faked faked = true
is_faked _ = false

-- The pages of the faked piece in the queue hold the bytes from `lp` on.
unfoldable pub put_back : ℕ → ℕ → List Piece → List Piece
put_back lp len [] = []
put_back lp len (p ∷ ps) =
    (if is_faked p.kind && leb lp p.from && leb p.to (lp + len)
      then record p { kind = plain }
      else p)
    ∷ put_back lp len ps

-- memcpy of restore_orig_len bytes from restore_orig to restore_fake.
unfoldable pub undo_fake : Bytes → Option (ℕ × ℕ) → Kernel → Option Kernel
unfolding put_back
undo_fake buf none k = some k
undo_fake buf (some (lp, len)) k = do
  orig ← load buf lp len
  some (record k { sent = put_back lp len k.sent; restore_fake = none })

abbrev pub undo_options : Kernel → Kernel
undo_options k =
    let j = undo_md5 k.restore_md5 k in
    record (undo_ttl j.restore_ttl j) { restore_ttl = false; restore_md5 = false }

unfoldable pub restore_state : Bytes → Kernel → Option Kernel
unfolding undo_fake undo_md5 undo_ttl
restore_state buf k = do k1 ← undo_fake buf k.restore_fake k; some (undo_options k1)

unfoldable pub sock_has_notsent : Kernel → Bool × Kernel
sock_has_notsent k =
    (elim k.notsent [ [] ↦ false | b ∷ bs ↦ b ], record k { notsent = tail k.notsent })
