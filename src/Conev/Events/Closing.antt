-- ===== src/Conev/Events/Closing.antt =====
-- add_event, del_event and destroy_pool keep the event table.
use byedpi.Prelude.{
  ℕ, zero, suc, ◌-◌, ◌≤◌, ◌<◌, ◌≡◌, ◌≢◌, ◌⊎◌, refl, sym, ap, ◌∙◌, inl, inr, Bool, true, false,
  Option, none, some, arith, leb, ◌==◌, if◌then◌else◌, Bool-cases, ◌>>=◌, Returns, if-cases,
}
use byedpi.Conev.Events.{
  Eval, Poolhd, set_at, is_open, closed, add_event, release, unlink, is_pair, set_pair, part,
  close_pair, del_event, destroy_pool,
}
use byedpi.Conev.Events.Table.{
  Live, IsValid, set_at-same, set_at-other, free-apart, free-closed, push-IsValid,
}
use byedpi.Conev.Events.Deletion.{
  same_view-IsValid, unlink_last-IsValid, unlink_other-IsValid, at_index, still_live,
}

-- A call that closes `val` leaves a table where it is closed; nothing was opened by it.
abbrev pub Closes : Poolhd → ℕ → Poolhd → Type 0
Closes pool val pool' =
    IsValid pool' × (is_open (pool'.items val).fd ≡ false) × ((w : ℕ) → Live pool' w → Live pool w)

module _ (pool : Poolhd) (v : IsValid pool) (val : ℕ) (alive : Live pool val) where
  unlink-Closes :
      Closes pool val (unlink (release pool val) val)
      × (suc (unlink (release pool val) val).count ≡ pool.count)
  unfolding release unlink
  unlink-Closes =
      let old = pool.items val in
      let e : Eval = record old {
        buff = none;
        sq_buff = none;
        has_fake = false;
        has_host = false;
        fd = none;
        mod_iter = pool.iters;
      } in
      let ev = pool.links (pool.count - 1) in
      let (a, b) = at_index pool v val alive in
      if-cases (λ pool'. Closes pool val pool' × (suc pool'.count ≡ pool.count)) (ev == val) _ _
        (λ y.
          let q : ev ≡ val = ground arith in
          (
            (
              same_view-IsValid
                  (record pool { count = pool.count - 1; items = set_at pool.items val e })
                  (unlink_last-IsValid pool v val alive e refl q) _ refl refl (λ i. refl)
                  (λ w. (refl, refl)),
              ap (λ u. is_open u.fd) (set_at-same pool.items val val e refl),
              λ w h. (still_live pool.items val w e refl h).1,
            ),
            omega arith,
          ))
        (λ n.
          let q : ev ≢ val = ground arith in
          let e' : Eval = record (set_at pool.items val e ev) {
            index = (set_at pool.items val e val).index;
          } in
          let g : e'.fd ≡ (pool.items ev).fd =
            ap (λ u. u.fd) (set_at-other pool.items val ev e q) in
          let h : e'.index ≡ old.index =
            ap (λ u. u.index) (set_at-same pool.items val val e refl) in
          (
            (
              same_view-IsValid _ (unlink_other-IsValid pool v val alive e e' refl g h q) _ refl
                  refl (λ i. ap (λ x. set_at (set_at pool.links x ev) (pool.count - 1) val i) h)
                  (λ w. (refl, refl)),
              ap (λ u. is_open u.fd)
                  (set_at-other (set_at pool.items val e) ev val e' (λ r. q (sym r))
                    ∙ set_at-same pool.items val val e refl),
              λ w l. opened e e' ev w q refl g l,
            ),
            omega arith,
          ))
    where
      opened :
          (e e' : Eval) (ev w : ℕ)
          → ev ≢ val
          → is_open e.fd ≡ false
          → e'.fd ≡ (pool.items ev).fd
          → is_open (set_at (set_at pool.items val e) ev e' w).fd ≡ true
          → Live pool w
      opened e e' ev w q f g l = elim (Bool-cases (w == ev)) [
        | inl y ↦
            let r : w ≡ ev = ground arith in
            ap (λ u. is_open (pool.items u).fd) r
            ∙ (ap is_open (sym g)
                ∙ (ap (λ u. is_open u.fd) (sym (set_at-same (set_at pool.items val e) ev w e' r))
                    ∙ l))
        | inr n ↦
            (still_live pool.items val w e f (
              ap (λ u. is_open u.fd)
                (sym (set_at-other (set_at pool.items val e) ev w e' (ground arith)))
              ∙ l)).1
      ]

set_pair-view :
    (items : ℕ → Eval) (u w : ℕ)
    → ((set_pair items u w).fd ≡ (items w).fd) × ((set_pair items u w).index ≡ (items w).index)
set_pair-view items u w =
    if-cases (λ x. (x.fd ≡ (items w).fd) × (x.index ≡ (items w).index)) (w == u)
      (record (items u) { pair = none }) (items w)
      (λ y. let q : w ≡ u = ground arith in rw q (refl, refl)) (λ n. (refl, refl))

part-items :
    (pool : Poolhd) (val e w : ℕ)
    → (((part pool val e).items w).fd ≡ (pool.items w).fd)
      × (((part pool val e).items w).index ≡ (pool.items w).index)
unfolding part
part-items pool val e w =
    let items = if is_pair (pool.items e).pair val then set_pair pool.items e else pool.items in
    let (d, x) = set_pair-view items val w in
    let (d', x') =
      if-cases (λ f. ((f w).fd ≡ (pool.items w).fd) × ((f w).index ≡ (pool.items w).index))
        (is_pair (pool.items e).pair val) (set_pair pool.items e) pool.items
        (λ y. set_pair-view pool.items e w) (λ n. (refl, refl)) in
    (d ∙ d', x ∙ x')

part-IsValid : (pool : Poolhd) (val e : ℕ) → IsValid pool → IsValid (part pool val e)
unfolding part
part-IsValid pool val e v =
    same_view-IsValid pool v (part pool val e) refl refl (λ i. refl) (part-items pool val e)

-- A call of del_event made `pool'` out of `pool`.
abbrev pub Deletes : Poolhd → ℕ → Poolhd → Type 0
Deletes pool val pool' =
    Closes pool val pool' × (pool'.count ≤ pool.count) × (Live pool val → pool'.count < pool.count)

part-count : (pool : Poolhd) (val e : ℕ) → (part pool val e).count ≡ pool.count
unfolding part
part-count pool val e = refl

-- What is left once the entry itself is closed.
close_pair-Deletes :
    (fuel : ℕ) (pool out : Poolhd) (val : ℕ) (p : Option ℕ)
    → Closes pool val out
    → suc out.count ≡ pool.count
    → ((pool' : Poolhd) (e : ℕ)
        → IsValid pool'
        → pool'.count < pool.count
        → Returns (del_event fuel pool' e) (Deletes pool' e))
    → Returns (close_pair out val p (λ pool' e. del_event fuel pool' e)) (Deletes pool val)
close_pair-Deletes fuel pool out val none c s next = (_, refl, (c, omega arith, λ h. omega arith))
close_pair-Deletes fuel pool out val (some e) (v, shut, less) s next =
    let k = part-count out val e in
    let (pool', q, ((v', shut', less'), m, n)) =
      next (part out val e) e (part-IsValid out val e v) (omega arith) in
    let back =
      λ (w : ℕ) (h : Live pool' w). ap is_open (sym (part-items out val e w).0) ∙ less' w h in
    (
      pool',
      q,
      (
        (v', still_shut (pool'.items val).fd shut (back val), λ w h. less w (back w h)),
        omega arith,
        λ h. omega arith,
      ),
    )
  where
    still_shut :
        (x : Option ℕ) {b : Bool} → b ≡ false → (is_open x ≡ true → b ≡ true) → is_open x ≡ false
    still_shut none e f = refl
    still_shut (some y) e f = absurd (ground (arith, f refl))

-- On a table where links and indices agree, with fuel for more calls than there are entries in use,
-- del_event ends, however the pairs point: the table agrees again, the entry is closed, nothing was
-- opened, and there are fewer entries in use if it was open.
pub del_event-Deletes :
    (fuel : ℕ) (pool : Poolhd) (val : ℕ)
    → IsValid pool
    → pool.count < fuel
    → Returns (del_event fuel pool val) (Deletes pool val)
unfolding del_event
del_event-Deletes zero pool val v l = absurd (omega arith)
del_event-Deletes (suc fuel) pool val v l =
    if-cases (λ r. Returns r (Deletes pool val)) (is_open (pool.items val).fd)
      (close_pair (unlink (release pool val) val) val (pool.items val).pair
        (λ pool' e. del_event fuel pool' e))
      (some pool)
      (λ y.
        let (c, s) = unlink-Closes pool v val y in
        close_pair-Deletes fuel pool (unlink (release pool val) val) val (pool.items val).pair c s
          (λ pool' e v' l'. del_event-Deletes fuel pool' e v' (omega arith)))
      (λ n. (pool, refl, ((v, n, λ w h. h), omega arith, λ h. absurd cc)))

-- On such a table, with fuel for more rounds than there are entries in use, destroy_pool closes all.
pub destroy_pool-empty :
    (fuel : ℕ) (pool : Poolhd)
    → IsValid pool
    → pool.count < fuel
    → Returns (destroy_pool fuel pool) (λ pool'. IsValid pool' × (pool'.count ≡ 0))
unfolding destroy_pool
destroy_pool-empty zero pool v l = absurd (omega arith)
destroy_pool-empty (suc fuel) pool v l =
    if-cases (λ r. Returns r (λ pool'. IsValid pool' × (pool'.count ≡ 0))) (pool.count == 0)
      (some pool) (del_event (suc fuel) pool (pool.links 0) >>= λ pool'. destroy_pool fuel pool')
      (λ y. (pool, refl, (v, ground arith)))
      (λ n.
        let (pool', q, ((v', shut, less), m, d)) =
          del_event-Deletes (suc fuel) pool (pool.links 0) v l in
        rw q (destroy_pool-empty fuel pool' v' (omega (arith, d (v.used 0 (ground arith)).0))))

-- What add_event gives.
abbrev pub Adds : Poolhd → ℕ → Bool → Option ℕ × Poolhd → Type 0
Adds pool fd added (none, pool') =
    ((pool.max ≤ pool.count) × (pool' ≡ pool))
    ⊎ ((added ≡ false)
        × (pool'.count ≡ pool.count)
        × ((i : ℕ) → i < pool.count → pool'.items (pool.links i) ≡ pool.items (pool.links i)))
Adds pool fd added (some val, pool') =
    IsValid pool'
    × (is_open (pool.items val).fd ≡ false)
    × ((pool'.items val).fd ≡ some fd)
    × ((w : ℕ) → w ≢ val → pool'.items w ≡ pool.items w)

-- On such a table, add_event gives an entry that was closed before and is open now; no other one
-- is touched, and the table agrees again. It gives none only when there is no room, and then changes
-- nothing, or when epoll_ctl refuses the descriptor, and then no entry in use is touched.
pub add_event-Adds :
    (pool : Poolhd) (fd : ℕ) (added : Bool)
    → IsValid pool
    → Adds pool fd added (add_event pool fd added)
unfolding add_event
add_event-Adds pool fd added v =
    let free = pool.links pool.count in
    let e : Eval = record closed { mod_iter = pool.iters; fd = some fd; index = pool.count } in
    if-cases (Adds pool fd added) (leb pool.max pool.count) _ _ (λ y. inl (ground arith, refl))
      (λ n.
        let room : pool.count < pool.max = ground arith in
        if-cases (Adds pool fd added) added _ _
          (λ y. (
            push-IsValid pool v room e refl refl,
            free-closed pool v room,
            ap (λ u. u.fd) (set_at-same pool.items free free e refl),
            λ w m. set_at-other pool.items free w e m,
          ))
          (λ m. inr (
            m,
            refl,
            λ i l. set_at-other pool.items free (pool.links i) e (free-apart pool v room i l),
          )))

-- On such a table and with that fuel, closing an open entry closes the one it is paired with.
del_event-pair :
    (fuel : ℕ) (pool : Poolhd) (val e : ℕ)
    → IsValid pool
    → pool.count < fuel
    → Live pool val
    → (pool.items val).pair ≡ some e
    → Returns (del_event fuel pool val) (λ pool'. is_open (pool'.items e).fd ≡ false)
unfolding del_event
del_event-pair zero pool val e v l a p = absurd (omega arith)
del_event-pair (suc fuel) pool val e v l a p =
    let out = unlink (release pool val) val in
    let ((v', shut, less), s) = unlink-Closes pool v val a in
    let k = part-count out val e in
    let (pool', q, ((v'', shut', less'), m, n)) =
      del_event-Deletes fuel (part out val e) e (part-IsValid out val e v') (omega arith) in
    (
      pool',
      ap
            (λ b.
              if b
              then close_pair out val (pool.items val).pair (λ pool' e. del_event fuel pool' e)
              else some pool)
            a
          ∙ (ap (λ o. close_pair out val o (λ pool' e. del_event fuel pool' e)) p ∙ q),
      shut',
    )
