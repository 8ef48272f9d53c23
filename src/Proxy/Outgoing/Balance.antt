-- ===== src/Proxy/Outgoing/Balance.antt =====
-- What create_conn of proxy.c leaves: no socket is open outside of the event table, and the entry of
-- a new one is paired.
use byedpi.Prelude.{
  ℕ, ◌≡◌, ◌≢◌, ◌⊎◌, ◌<◌, inl, inr, refl, sym, ap, ◌∙◌, ◌&&◌, not, Bool, true, false, Option, none,
  some, List, ◌∷◌, arith, leb, ◌==◌, ==_iff, if-cases,
}
use byedpi.Net.{Addr, Family, is_inet, map_fix}
use byedpi.Conev.Events.{Eval, Poolhd, closed, is_open, add_event}
use byedpi.Conev.Events.Table.{IsValid, Live, set_at-same, set_at-other}
use byedpi.Conev.Events.Deletion.{same_view-IsValid}
use byedpi.Conev.Events.Closing.{Adds, add_event-Adds}
use byedpi.Proxy.Outgoing.{
  SockCalls, ConnCalls, close, same_family, opened, remote_sock, Conn, refused, point, paired,
  connecting, create_conn,
}

pub close_self : (fd : ℕ) (xs : List ℕ) → close fd (fd ∷ xs) ≡ xs
unfolding close
close_self fd xs = ground arith

-- A socket is open behind remote_sock just when it is returned.
abbrev pub Opens : List ℕ → Option ℕ × Addr × List ℕ → Type 0
Opens outside (none, addr, held) = held ≡ outside
Opens outside (some fd, addr, held) = held ≡ fd ∷ outside

opened-Opens :
    (family : Family) (c : SockCalls) (dst : Addr) (outside : List ℕ) (s : Option ℕ)
    → Opens outside (opened family c dst outside s)
opened-Opens family c dst outside none = refl
opened-Opens family c dst outside (some fd) =
    if-cases (Opens outside) (not c.modded) _ _ (λ y. close_self fd outside)
      (λ n.
        if-cases (Opens outside) (not (is_inet family) && not c.v6only) _ _
          (λ y. close_self fd outside)
          (λ m.
            if-cases (Opens outside) (not c.bound) _ _ (λ y. close_self fd outside) (λ k. refl)))

pub remote_sock-Opens :
    (family : Family) (c : SockCalls) (dst : Addr) (outside : List ℕ)
    → Opens outside (remote_sock family c dst outside)
unfolding remote_sock
remote_sock-Opens family c dst outside =
    let dst' = map_fix dst (not (is_inet family)) in
    if-cases (Opens outside) (not (same_family dst'.family family)) _ _ (λ y. refl)
      (λ n. opened-Opens family c dst' outside c.socket)

-- Pairing touches neither descriptors nor indices, and no other entry.
pub point-view :
    (pool : Poolhd) (a b w : ℕ)
    → (((point pool a b).items w).fd ≡ (pool.items w).fd)
      × (((point pool a b).items w).index ≡ (pool.items w).index)
point-view pool a b w =
    if-cases (λ (e : Eval). (e.fd ≡ (pool.items w).fd) × (e.index ≡ (pool.items w).index)) (w == a)
      _ _
      (λ y.
        let e = (==_iff w a).0 y in
        (ap (λ t. (pool.items t).fd) (sym e), ap (λ t. (pool.items t).index) (sym e)))
      (λ n. (refl, refl))

pub point-IsValid : (pool : Poolhd) (a b : ℕ) → IsValid pool → IsValid (point pool a b)
point-IsValid pool a b v =
    same_view-IsValid pool v (point pool a b) refl refl (λ i. refl) (point-view pool a b)

pub point-pair : (pool : Poolhd) (a b : ℕ) → ((point pool a b).items a).pair ≡ some b
point-pair pool a b =
    ap (λ (e : Eval). e.pair)
      (set_at-same pool.items a a (record (pool.items a) { pair = some b }) refl)

pub point-other : (pool : Poolhd) (a b w : ℕ) → w ≢ a → (point pool a b).items w ≡ pool.items w
point-other pool a b w n = set_at-other pool.items a w (record (pool.items a) { pair = some b }) n

-- A new entry has no pair.
abbrev pub Unpaired : Option ℕ × Poolhd → Type 0
Unpaired (none, pool) = Unit
Unpaired (some p, pool) = (pool.items p).pair ≡ none

pub add_event-Unpaired :
    (pool : Poolhd) (fd : ℕ) (added : Bool) → Unpaired (add_event pool fd added)
unfolding add_event
add_event-Unpaired pool fd added =
    let free = pool.links pool.count in
    let e : Eval = record closed { mod_iter = pool.iters; fd = some fd; index = pool.count } in
    if-cases Unpaired (leb pool.max pool.count) _ _ (λ y. tt)
      (λ n.
        if-cases Unpaired added _ _
          (λ y. ap (λ (u : Eval). u.pair) (set_at-same pool.items free free e refl)) (λ m. tt))

-- An entry `p` is in use that was not before, and no other one has changed but `val`.
abbrev pub Grows : Poolhd → ℕ → ℕ → Poolhd → Type 0
Grows pool val p pool' =
    IsValid pool'
    × (is_open (pool.items p).fd ≡ false)
    × (is_open (pool'.items p).fd ≡ true)
    × ((w : ℕ) → w ≢ val → w ≢ p → pool'.items w ≡ pool.items w)

-- What create_conn leaves: the two are paired, or nothing has changed, or epoll_ctl refused the
-- socket and no entry in use has changed, or a new entry is left without a pair.
abbrev pub Connects : Bool → Poolhd → ℕ → Conn → Type 0
Connects mod_etype pool val r =
    ((r.ok ≡ true)
      × ((p : ℕ) × Grows pool val p r.pool
          × ((r.pool.items p).pair ≡ some val)
          × ((r.pool.items val).pair ≡ some p)))
    ⊎ (((r.ok ≡ false)
          × (r.pool.count ≡ pool.count)
          × ((i : ℕ) → i < pool.count → r.pool.items (pool.links i) ≡ pool.items (pool.links i)))
        ⊎ ((r.ok ≡ false)
            × (mod_etype ≡ false)
            × ((p : ℕ) × Grows pool val p r.pool × ((r.pool.items p).pair ≡ none))))

abbrev pub Balanced : Bool → Poolhd → ℕ → List ℕ → Conn → Type 0
Balanced mod_etype pool val outside r = (r.outside ≡ outside) × Connects mod_etype pool val r

module _ (c : ConnCalls) (pool : Poolhd) (val fd : ℕ) (held outside : List ℕ) (l : Live pool val)
    (h : held ≡ fd ∷ outside) where
  closed_again : close fd held ≡ outside
  closed_again = rw h (close_self fd outside)

  unchanged : Balanced c.mod_etype pool val outside (refused pool (close fd held))
  unchanged = (closed_again, inr (inl (refl, refl, λ i k. refl)))

  paired-Balanced :
      (added : Bool) (r : Option ℕ × Poolhd)
      → Adds pool fd added r
      → Unpaired r
      → Balanced c.mod_etype pool val outside (paired c val fd held r)
  paired-Balanced added (none, pool') (inl (full, e)) u = (
    closed_again,
    inr (
        inl (
          refl,
          ap (λ (t : Poolhd). t.count) e,
          λ i k. ap (λ (t : Poolhd). t.items (pool.links i)) e,
        )),
  )
  paired-Balanced added (none, pool') (inr (f, n, s)) u = (closed_again, inr (inl (refl, n, s)))
  paired-Balanced added (some p, pool') (v, fresh, has_fd, others) u =
      let apart : p ≢ val =
        λ e. clash (is_open (pool.items p).fd) fresh (ap (λ t. is_open (pool.items t).fd) e ∙ l) in
      let q = point pool' val p in
      if-cases (Balanced c.mod_etype pool val outside) (not c.mod_etype) _ _
        (λ y. (
          closed_again,
          inr (
              inr (
                refl,
                not_not c.mod_etype y,
                (p, (v, fresh, ap is_open has_fd, λ w a b. others w b), u),
              )),
        ))
        (λ n. (
          closed_again,
          inl (
            refl,
            (
              p,
              (
                point-IsValid q p val (point-IsValid pool' val p v),
                fresh,
                ap is_open ((point-view q p val p).0 ∙ (point-view pool' val p p).0 ∙ has_fd),
                λ w a b. point-other q p val w b ∙ point-other pool' val p w a ∙ others w b,
              ),
              point-pair q p val,
              ap (λ (e : Eval). e.pair) (point-other q p val val (λ e. apart (sym e)))
                  ∙ point-pair pool' val p,
            ),
          ),
        ))
    where
      clash : (b : Bool) → b ≡ false → b ≡ true → ⊥
      clash b e f = cc

      not_not : (b : Bool) → not b ≡ true → b ≡ false
      not_not b e = ground arith

connecting-Balanced :
    (tfo : Bool) (c : ConnCalls) (pool : Poolhd) (val : ℕ) (outside : List ℕ)
    (s : Option ℕ × Addr × List ℕ)
    → IsValid pool
    → Live pool val
    → Opens outside s
    → Balanced c.mod_etype pool val outside (connecting tfo c pool val s)
connecting-Balanced tfo c pool val outside (none, addr, held) v l h =
    (h, inr (inl (refl, refl, λ i k. refl)))
connecting-Balanced tfo c pool val outside (some fd, addr, held) v l h =
    let P = Balanced c.mod_etype pool val outside in
    let same = unchanged c pool val fd held outside l h in
    if-cases P (not c.syncnt) _ _ (λ y. same)
      (λ a.
        if-cases P (tfo && not c.fastopen) _ _ (λ y. same)
          (λ b.
            if-cases P (not c.nodelay) _ _ (λ y. same)
              (λ d.
                if-cases P (not c.connected) _ _ (λ y. same)
                  (λ e.
                    paired-Balanced c pool val fd held outside l h c.added
                      (add_event pool fd c.added) (add_event-Adds pool fd c.added v)
                      (add_event-Unpaired pool fd c.added)))))

-- On a valid table, and whatever the system calls answer, create_conn leaves as many sockets open
-- outside of the table as there were. If it returns 0, a new entry is in use, is paired with `val`
-- and `val` with it, and no other entry has changed. If it returns -1, no entry in use has changed,
-- or else mod_etype has failed, and the new entry stays in use without a pair.
pub create_conn-Balanced :
    (family : Family) (tfo : Bool) (c : ConnCalls) (pool : Poolhd) (val : ℕ) (dst : Addr)
    (outside : List ℕ)
    → IsValid pool
    → Live pool val
    → Balanced c.mod_etype pool val outside (create_conn family tfo c pool val dst outside)
unfolding create_conn
create_conn-Balanced family tfo c pool val dst outside v l =
    connecting-Balanced tfo c pool val outside (remote_sock family c.sock dst outside) v l
      (remote_sock-Opens family c.sock dst outside)
