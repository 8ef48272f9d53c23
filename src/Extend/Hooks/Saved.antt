-- ===== src/Extend/Hooks/Saved.antt =====
-- The first request that tcp_recv_hook of extend.c keeps for a second connection.
use byedpi.Prelude.{
  ℕ, ◌+◌, ◌<◌, ◌≡◌, refl, ap, subst, sym, ◌∙◌, inl, inr, true, false, Option, none, some, List, [],
  ◌∷◌, ◌++◌, Bytes, arith, length, length-append, ltb, leb, ◌==◌, if◌then◌else◌, Bool-cases,
}
use mathlib.Core.List.{append-nil, append_assoc}
use byedpi.Extend.Hooks.{Side, HookParams, Answers, count_recv, save_request, tcp_recv_hook}

-- The client's side after it sent some pieces, each received by one call.
unfoldable pub received : HookParams → Answers → Side → Side → List Bytes → Side × Side
received p a val pair [] = (val, pair)
received p a val pair (c ∷ cs) =
    let (r, val', pair') = tcp_recv_hook p a false val pair c in received p a val' pair' cs

abbrev pub kept : ℕ → Bytes → Option Bytes
kept size bs = if ltb (length bs) size then some bs else none

abbrev Holds : ℕ → Side → Bytes → Type 0
Holds size val bs = (val.recv_count ≡ length bs) × (0 < length bs) × (val.sq_buff ≡ kept size bs)

count_recv-keeps :
    (val pair : Side) (n : ℕ)
    → ((count_recv val pair n).0.recv_count ≡ val.recv_count + n)
      × ((count_recv val pair n).0.sq_buff ≡ val.sq_buff)
unfolding count_recv
count_recv-keeps val pair n = ground arith

save_request-count :
    (p : HookParams) (val : Side) (bs : Bytes) → (save_request p val bs).recv_count ≡ val.recv_count
unfolding save_request
save_request-count p val bs = ground arith

abbrev cut : HookParams → Side → Bytes → ℕ → Side
cut p val bs n =
    if leb p.bfsize n then record val { sq_buff = none } else record val { sq_buff = some bs }

cut-kept :
    (p : HookParams) (val : Side) (bs : Bytes)
    → (cut p val bs (length bs)).sq_buff ≡ kept p.bfsize bs
cut-kept p val bs = ground arith

-- One more piece, of what is held.
save_request-held :
    (p : HookParams) (val : Side) (bs c : Bytes)
    → p.auto_reconnect ≡ true
    → val.sq_buff ≡ some bs
    → (save_request p val c).sq_buff ≡ kept p.bfsize (bs ++ c)
unfolding save_request
save_request-held p val bs c a e = rw (a, e, sym (length-append bs c)) (cut-kept p val (bs ++ c))

-- One more piece, where nothing is held and it is not the first.
save_request-full :
    (p : HookParams) (val : Side) (bs c : Bytes)
    → p.auto_reconnect ≡ true
    → val.sq_buff ≡ none
    → (val.recv_count == length c) ≡ false
    → (save_request p val c).sq_buff ≡ none
unfolding save_request
save_request-full p val bs c a e n = rw (a, e, n, e) refl

save_request-kept :
    (p : HookParams) (val : Side) (bs c : Bytes)
    → p.auto_reconnect ≡ true
    → val.recv_count ≡ length bs + length c
    → 0 < length bs
    → val.sq_buff ≡ kept p.bfsize bs
    → (save_request p val c).sq_buff ≡ kept p.bfsize (bs ++ c)
save_request-kept p val bs c a n z e = elim (Bool-cases (ltb (length bs) p.bfsize)) [
  | inl y ↦ save_request-held p val bs c a (e ∙ rw y refl)
  | inr m ↦
      save_request-full p val bs c a (e ∙ rw m refl) (ground arith)
      ∙ sym (rw (length-append bs c, no_room m) refl)
]
  where
    no_room : ltb (length bs) p.bfsize ≡ false → ltb (length bs + length c) p.bfsize ≡ false
    no_room m = ground arith

-- The first piece.
save_request-first :
    (p : HookParams) (val : Side) (c : Bytes)
    → p.auto_reconnect ≡ true
    → val.recv_count ≡ length c
    → val.sq_buff ≡ none
    → (save_request p val c).sq_buff ≡ kept p.bfsize c
unfolding save_request
save_request-first p val c a n e =
    rw (a, e, n, same, none_kept)
      (cut-kept p (record val { recv_count = length c; sq_buff = none }) c)
  where
    same : (length c == length c) ≡ true
    same = ground arith

    none_kept : length {A = ℕ} [] + length c ≡ length c
    none_kept = omega arith

tcp_recv_hook-Holds :
    (p : HookParams) (a : Answers) (val pair : Side) (bs c : Bytes)
    → p.auto_reconnect ≡ true
    → Holds p.bfsize val bs
    → Holds p.bfsize (tcp_recv_hook p a false val pair c).1 (bs ++ c)
unfolding tcp_recv_hook
tcp_recv_hook-Holds p a val pair bs c r (n, z, e) =
    let (m, f) = count_recv-keeps val pair (length c) in
    let v = (count_recv val pair (length c)).0 in
    let total = m ∙ ap (λ k. k + length c) n in
    (
      save_request-count p v c ∙ (total ∙ sym (length-append bs c)),
      rw (length-append bs c) (omega arith),
      save_request-kept p v bs c r total z (f ∙ e),
    )

unfoldable pub flat : List Bytes → Bytes
flat [] = []
flat (c ∷ cs) = c ++ flat cs

received-Holds :
    (p : HookParams) (a : Answers) (val pair : Side) (bs : Bytes) (cs : List Bytes)
    → p.auto_reconnect ≡ true
    → Holds p.bfsize val bs
    → Holds p.bfsize (received p a val pair cs).0 (bs ++ flat cs)
unfolding received flat
received-Holds p a val pair bs [] r h = rw (append-nil bs) h
received-Holds p a val pair bs (c ∷ cs) r h =
    let next = tcp_recv_hook p a false val pair c in
    subst (Holds p.bfsize (received p a val pair (c ∷ cs)).0) (append_assoc bs c (flat cs))
      (received-Holds p a next.1 next.2 (bs ++ c) cs r (tcp_recv_hook-Holds p a val pair bs c r h))

-- With auto_reconnect, after a client that was fresh sent its first bytes and any number of pieces
-- more, what is kept for a second connection is all of them in order if they are fewer than bfsize
-- bytes together, and otherwise nothing.
pub received-kept :
    (p : HookParams) (a : Answers) (val pair : Side) (c : Bytes) (cs : List Bytes)
    → p.auto_reconnect ≡ true
    → val.recv_count ≡ 0
    → val.sq_buff ≡ none
    → 0 < length c
    → (received p a val pair (c ∷ cs)).0.sq_buff ≡ kept p.bfsize (flat (c ∷ cs))
unfolding received tcp_recv_hook flat
received-kept p a val pair c cs r n e z =
    let (m, f) = count_recv-keeps val pair (length c) in
    let v = (count_recv val pair (length c)).0 in
    let total = m ∙ (ap (λ k. k + length c) n ∙ sum0) in
    let next = tcp_recv_hook p a false val pair c in
    (received-Holds p a next.1 next.2 c cs r
      (save_request-count p v c ∙ total, z, save_request-first p v c r total (f ∙ e))).2
  where
    sum0 : 0 + length c ≡ length c
    sum0 = omega arith
