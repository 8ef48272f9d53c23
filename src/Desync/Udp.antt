-- ===== src/Desync/Udp.antt =====
-- desync_udp of desync.c: a datagram that follows a number of fake ones. The replies of the kernel
-- are a list, one for each call, and the datagrams that it took are kept in order.
use byedpi.Prelude.{
  ℕ, zero, suc, ◌≡◌, refl, ap, ◌∙◌, Bool, true, false, Option, none, some, List, [], ◌∷◌, ◌++◌,
  Bytes, length, drop, ltb, ◌==◌, if◌then◌else◌, ◌>>=◌, arith, Returns, Bool-cases, inl, inr,
}
use byedpi.Prelude.Int.{ℤ, pos, negsuc}

-- struct desync_params, as far as desync_udp reads it; `fake_offset` is none where its `m` is 0.
pub record UdpParams : Type 0 where
  pub udp_fake_count : ℕ
  pub fake_data : Option Bytes
  pub fake_udp : Bytes
  pub fake_offset : Option ℤ

-- The fake datagram, less what lies in front of its offset; one in front of it reads before the
-- data, which is `none`.
unfoldable pub udp_packet : UdpParams → Option Bytes
udp_packet dp =
    let pkt : Bytes = elim dp.fake_data [ none ↦ dp.fake_udp | some d ↦ d ] in
    elim dp.fake_offset [
      | none ↦ some pkt
      | some (negsuc k) ↦ none
      | some (pos at) ↦ some (if ltb at (length pkt) then drop at pkt else [])
    ]

-- Whether a call succeeds, the replies that are left, and the datagrams taken so far.
pub record Line : Type 0 where
  pub replies : List Bool
  pub taken : List Bytes

abbrev pub next_ok : List Bool → Bool
next_ok [] = true
next_ok (b ∷ bs) = b

abbrev pub later_replies : List Bool → List Bool
later_replies [] = []
later_replies (b ∷ bs) = bs

-- The loop over the fakes: whether it ends without an error.
unfoldable pub send_fakes : ℕ → Bytes → Line → Bool × Line
send_fakes zero pkt l = (true, l)
send_fakes (suc n) pkt l =
    let rest =
      send_fakes n pkt
        (record { replies = later_replies l.replies; taken = l.taken ++ (pkt ∷ []) }) in
    if next_ok l.replies then rest else (false, record l { replies = later_replies l.replies })

-- setttl counts as one call.
abbrev pub set_ttl : Line → Bool × Line
set_ttl l = (next_ok l.replies, record l { replies = later_replies l.replies })

-- send(sfd, buffer, n, 0)
unfoldable pub send_own : Bytes → Line → ℤ × Line
send_own buf l =
    if next_ok l.replies
    then (
      pos (length buf),
      record { replies = later_replies l.replies; taken = l.taken ++ (buf ∷ []) },
    )
    else (negsuc 0, record l { replies = later_replies l.replies })

abbrev pub if_ok : Bool × Line → (Line → ℤ × Line) → ℤ × Line
if_ok (true, l) f = f l
if_ok (false, l) f = (negsuc 0, l)

unfoldable pub desync_udp : UdpParams → Bytes → Line → Option (ℤ × Line)
unfolding send_fakes udp_packet
desync_udp dp buf l = if dp.udp_fake_count == 0 then some (send_own buf l) else (do
  pkt ← udp_packet dp
  some (
      if_ok (set_ttl l) (λ l1.
        if_ok (send_fakes dp.udp_fake_count pkt l1) (λ l2. if_ok (set_ttl l2) (send_own buf)))))

-- What the line holds when all was sent: the fakes and then the datagram.
abbrev pub fakes_then : ℕ → Bytes → Bytes → List Bytes
fakes_then zero pkt buf = buf ∷ []
fakes_then (suc n) pkt buf = pkt ∷ fakes_then n pkt buf

++-assoc : (xs ys zs : List Bytes) → (xs ++ ys) ++ zs ≡ xs ++ (ys ++ zs)
++-assoc [] ys zs = refl
++-assoc (x ∷ xs) ys zs = ap (λ l. x ∷ l) (++-assoc xs ys zs)

-- The result of the code after some of the fakes, against what was taken before.
abbrev pub Ends : List Bytes → ℕ → Bytes → Bytes → ℤ × Line → Type 0
Ends before n pkt buf (negsuc k, l) = Unit
Ends before n pkt buf (pos s, l) = (s ≡ length buf) × (l.taken ≡ before ++ fakes_then n pkt buf)

send_own-Ends : (pkt buf : Bytes) (l : Line) → Ends l.taken 0 pkt buf (send_own buf l)
unfolding send_own
send_own-Ends pkt buf l = elim (Bool-cases (next_ok l.replies)) [
  | inl y ↦ rw y (refl, refl)
  | inr n ↦ rw n tt
]

ttl-Ends : (pkt buf : Bytes) (l : Line) → Ends l.taken 0 pkt buf (if_ok (set_ttl l) (send_own buf))
ttl-Ends pkt buf l = elim (Bool-cases (next_ok l.replies)) [
  | inl y ↦ rw y (send_own-Ends pkt buf (record l { replies = later_replies l.replies }))
  | inr n ↦ rw n tt
]

Ends-move :
    (before : List Bytes) (n : ℕ) (pkt buf : Bytes) (r : ℤ × Line)
    → Ends (before ++ (pkt ∷ [])) n pkt buf r
    → Ends before (suc n) pkt buf r
Ends-move before n pkt buf (negsuc k, l) h = tt
Ends-move before n pkt buf (pos s, l) (e, t) =
    (e, t ∙ ++-assoc before (pkt ∷ []) (fakes_then n pkt buf))

send_fakes-Ends :
    (n : ℕ) (pkt buf : Bytes) (l : Line)
    → Ends l.taken n pkt buf (if_ok (send_fakes n pkt l) (λ l2. if_ok (set_ttl l2) (send_own buf)))
unfolding send_fakes
send_fakes-Ends zero pkt buf l = ttl-Ends pkt buf l
send_fakes-Ends (suc n) pkt buf l = elim (Bool-cases (next_ok l.replies)) [
  | inl y ↦ rw y (
      Ends-move l.taken n pkt buf _ (
        send_fakes-Ends n pkt buf
          (record { replies = later_replies l.replies; taken = l.taken ++ (pkt ∷ []) })))
  | inr z ↦ rw z tt
]

-- With an offset that is not negative, `desync_udp` always returns: -1, or the size of the datagram,
-- and then the fakes, as many as were asked for, and the datagram itself were sent, in that order.
pub desync_udp-Ends :
    (dp : UdpParams) (pkt buf : Bytes) (l : Line)
    → udp_packet dp ≡ some pkt
    → Returns (desync_udp dp buf l) (Ends l.taken dp.udp_fake_count pkt buf)
unfolding desync_udp
desync_udp-Ends dp pkt buf l e = elim (Bool-cases (dp.udp_fake_count == 0)) [
  | inl y ↦ rw (y, none_asked dp.udp_fake_count y) (_, refl, send_own-Ends pkt buf l)
  | inr z ↦
      rw (z, e)
        (elim (Bool-cases (next_ok l.replies)) [
          | inl y ↦ rw y (
            _,
            refl,
            send_fakes-Ends dp.udp_fake_count pkt buf
                (record l { replies = later_replies l.replies }),
          )
          | inr n ↦ rw n (_, refl, tt)
        ])
]
  where
    none_asked : (n : ℕ) → (n == 0) ≡ true → n ≡ 0
    none_asked n y = ground arith
