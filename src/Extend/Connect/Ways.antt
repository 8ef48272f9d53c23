-- ===== src/Extend/Connect/Ways.antt =====
-- Which ways connect_hook of extend.c takes.
use byedpi.Prelude.{
  ℕ, ◌≡◌, ◌≢◌, ◌⊎◌, ◌∙◌, ap, inl, inr, refl, sym, subst, ◌&&◌, not, Bool, true, false, Option, none,
  some, List, [], ◌∷◌, arith, ◌==◌, if-cases, Returns,
}
use byedpi.Prelude.Word.{Word, Within, same_word}
use byedpi.Net.{Addr}
use byedpi.Mpool.{Elem}
use byedpi.Mpool.Pool.{Item, Kavl}
use byedpi.Mpool.Pool.Owned.{Tree, IsValid}
use byedpi.Extend.Groups.{In, AllIn, Complete}
use byedpi.Extend.Filter.{Pool, Group, Seeker}
use byedpi.Extend.Choice.{Fit, Passes, Chosen, find_dp-Chosen}
use byedpi.Extend.Cache.{Cache, expired}
use byedpi.Extend.Cache.Entries.{entry, Given, cache_get-Given}
use byedpi.Extend.Connect.{
  Caller, Way, drop_conn, delay, direct, through, Route, from_group, from_dp, seeker, needs_bytes,
  has_bytes, way_out, routed, recalled, recall, connect_hook,
}

from_group-In : (gs : List Group) (i : ℕ) (g : Group) → In g (from_group gs i) → In g gs
unfolding from_group
from_group-In [] i g h = h
from_group-In (x ∷ gs) i g h =
    if-cases (λ (l : List Group). In g l → In g (x ∷ gs)) (x.id == i) _ _ (λ y h. h)
      (λ n h. inr (from_group-In gs i g h)) h

from_dp-In : (gs : List Group) (dp : Option ℕ) (g : Group) → In g (from_dp gs dp) → In g gs
from_dp-In gs none g h = absurd h
from_dp-In gs (some i) g h = from_group-In gs i g h

module _ (find : Pool → Elem → Option Elem) (p : Route) (s : Seeker) where
  -- The group of the client is one of the list and passes the tests of the seeker.
  abbrev pub Fits : Caller → Addr → Caller → Group → Type 0
  Fits c dst c' g = In g p.groups × (c'.dp ≡ some g.id) × Passes find s dst g

  -- Where the bytes matter and can be waited for, they have come.
  abbrev pub Ready : Caller → Group → Type 0
  Ready c g = (needs_bytes g && not (has_bytes c.buff) && p.delay_conn) ≡ false

  abbrev pub Takes : Caller → Addr → Way → Caller → Type 0
  Takes c dst drop_conn c' = same_word c'.dp_mask p.full ≡ true
  Takes c dst delay c' =
      (g : Group) × Fits c dst c' g
      × (has_bytes c.buff ≡ false)
      × (needs_bytes g ≡ true)
      × (p.delay_conn ≡ true)
  Takes c dst (direct a) c' =
      (g : Group) × Fits c dst c' g × Ready c g × (p.out g.id ≡ none) × (a ≡ dst)
  Takes c dst (through a socks5) c' =
      (g : Group) × Fits c dst c' g × Ready c g × (p.out g.id ≡ some (a, socks5))

  way_out-Takes :
      (c c' : Caller) (dst : Addr) (g : Group)
      → Fits c dst c' g
      → Ready c g
      → Takes c dst (way_out p g dst) c'
  way_out-Takes c c' dst g f r = go (p.out g.id) refl
    where
      go :
          (o : Option (Addr × Bool))
          → p.out g.id ≡ o
          → Takes c dst (elim o [ none ↦ direct dst | some (a, socks5) ↦ through a socks5 ]) c'
      go none e = (g, f, r, e, refl)
      go (some (a, socks5)) e = (g, f, r, e)

  three : (a b d : Bool) → (a && not b && d) ≡ true → (b ≡ false) × (a ≡ true) × (d ≡ true)
  three a b d h = ground arith

  routed-Takes :
      (c c1 : Caller) (dst : Addr) (r : Option Group × Word)
      → c1.buff ≡ c.buff
      → s ≡ seeker c1 c1.buff
      → Chosen find p.groups s dst p.full c1.dp_mask r
      → Takes c dst (routed p c1 dst r).0 (routed p c1 dst r).1
  routed-Takes c c1 dst (none, mask) b z h = h
  routed-Takes c c1 dst (some g, mask) b z (i, m, q) = rw b (
      if-cases (λ (w : Way × Caller). Takes c dst w.0 w.1)
        (needs_bytes g && not (has_bytes c.buff) && p.delay_conn) _ _
        (λ y.
          let (f, n, d) = three (needs_bytes g) (has_bytes c.buff) p.delay_conn y in
          (g, fits, f, n, d))
        (λ n. way_out-Takes c _ dst g fits n))
    where
      fits : Fits c dst (record c1 { dp = some g.id; dp_mask = mask }) g
      fits = (i, refl, q)

module _ {T : Type 0} (k : Kavl T) (tr : Tree k) (find : Pool → Elem → Option Elem) where
  -- What the search starts from: what the client has where it has a group; else the entry of the
  -- address, where that has not expired; else nothing but what the client has.
  abbrev pub Remembers : Route → Cache T → ℕ → Addr → Caller → Seeker → Type 0
  Remembers p cache t dst c s =
      ((c.dp ≢ none) × (s.init ≡ c.dp) × (s.detect ≡ c.detect))
      ⊎ ((c.dp ≡ none)
          × (((val : Item) × (dp : ℕ) × (entry k tr cache dst ≡ some val)
                × ((cache.info val.at).dp ≡ some dp)
                × (expired (p.cache_ttl dp) (cache.info val.at).time t ≡ false)
                × (s.init ≡ some dp)
                × (s.detect ≡ (cache.info val.at).detect))
              ⊎ ((s.init ≡ none)
                  × (s.detect ≡ c.detect)
                  × ((entry k tr cache dst ≡ none)
                      ⊎ ((val : Item) × (dp : ℕ) × (entry k tr cache dst ≡ some val)
                          × ((cache.info val.at).dp ≡ some dp)
                          × (expired (p.cache_ttl dp) (cache.info val.at).time t ≡ true))))))

  recall-Within :
      (p : Route) (cache : Cache T) (t : ℕ) (dst : Addr) (c : Caller) (dp : Option ℕ)
      → IsValid k tr cache.hdr
      → ((val : Item)
          → entry k tr cache dst ≡ some val
          → (i : ℕ) × ((cache.info val.at).dp ≡ some i))
      → ((a : ℕ) → Within (cache.info a).dp_mask p.full)
      → Within c.dp_mask p.full
      → dp ≡ c.dp
      → Returns (recall k find p cache t dst c dp) (λ r.
        (r.0.buff ≡ c.buff)
        × Within r.0.dp_mask p.full
        × Remembers p cache t dst c (seeker r.0 r.0.buff))
  recall-Within p cache t dst c (some i) v g m w z =
      (_, refl, (refl, w, inl ((λ e. some-none (z ∙ e)), refl, refl)))
    where
      some-none : some i ≡ none → ⊥
      some-none e = cc
  recall-Within p cache t dst c none v g m w z =
      let ((e, cache'), q, (d, _, _)) = cache_get-Given k tr cache p.cache_ttl t dst v g in
      rw q (_, refl, known e cache' d)
    where
      known :
          (e : Option Item) (cache' : Cache T)
          → Given k tr cache p.cache_ttl t dst (e, cache')
          → ((recalled k find cache' c e).buff ≡ c.buff)
            × Within (recalled k find cache' c e).dp_mask p.full
            × Remembers p cache t dst c
                (seeker (recalled k find cache' c e) (recalled k find cache' c e).buff)
      known none cache' (inl (e, _)) = (refl, w, inr (sym z, inr (sym z, refl, inl e)))
      known none cache' (inr (val, dp, e, i, x, _)) =
          (refl, w, inr (sym z, inr (sym z, refl, inr (val, dp, e, i, x))))
      known (some val) cache' (q, e, (dp, i, x)) = (
        refl,
        rw e (m val.at),
        inr (
          sym z,
          inl (
            val,
            dp,
            q,
            i,
            x,
            ap (λ (c : Cache T). (c.info val.at).dp) e ∙ i,
            ap (λ (c : Cache T). (c.info val.at).detect) e,
          ),
        ),
      )

  -- Let the groups make up the full mask, and the masks of the client and of the cache lie in it,
  -- and let each entry of the cache have a group. Then connect_hook ends without a fault on any
  -- first bytes. It looks for a group with the first bytes and with what it remembers: the group and the detection of the
  -- client where it has a group, else those of the entry of the address where that has not expired. It drops the
  -- connection only when every group was tried. Otherwise the client's group is one of the list that passes every test
  -- for that search; the connection waits only where the group has to see the
  -- bytes, none have come, and waiting is on; and it goes to the address itself just when the group names
  -- no other proxy.
  pub connect_hook-Takes :
      (p : Route) (cache : Cache T) (t : ℕ) (c : Caller) (dst : Addr)
      → Fit c.buff
      → AllIn (λ (x : Group). x.bit) p.groups p.full
      → Complete (λ (x : Group). x.bit) p.full p.groups
      → IsValid k tr cache.hdr
      → ((val : Item)
          → entry k tr cache dst ≡ some val
          → (i : ℕ) × ((cache.info val.at).dp ≡ some i))
      → ((a : ℕ) → Within (cache.info a).dp_mask p.full)
      → Within c.dp_mask p.full
      → Returns (connect_hook k find p cache t c dst) (λ (way, c', cache').
        (s : Seeker) × Remembers p cache t dst c s
        × (s.bytes ≡ c.buff)
        × Takes find p s c dst way c')
  unfolding connect_hook
  connect_hook-Takes p cache t c dst fit all complete v g m w =
      let ((c1, cache'), e, (b, w1, q)) = recall-Within p cache t dst c c.dp v g m w refl in
      let (r, e', h) =
        find_dp-Chosen find p.full p.groups (from_dp p.groups c1.dp) (seeker c1 c1.buff) dst
          c1.dp_mask (subst Fit (sym b) fit) (from_dp-In p.groups c1.dp) all complete w1 in
      rw (e, e')
        (
          _,
          refl,
          (seeker c1 c1.buff, q, b, routed-Takes find p (seeker c1 c1.buff) c c1 dst r b refl h),
        )
