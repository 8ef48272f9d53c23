-- ===== src/Mpool/Pool/Owned.antt =====
-- Who owns an element of the pool: the tree, or nobody after one call of destroy_elem.
use byedpi.Prelude.{
  ℕ, zero, suc, ◌+◌, ◌≤◌, ◌<◌, ◌≡◌, refl, sym, ap, ◌∙◌, inl, inr, true, false, Option, none, some,
  List, [], ◌∷◌, length, arith, ltb, ◌==◌, if◌then◌else◌, Bool-cases, Returns,
}
use byedpi.Mpool.{Elem, CmpType}
use byedpi.Mpool.Pool.{
  Item, Kavl, Freed, Mphdr, destroy_elem, erased, mem_delete, inserted, mem_add, after_first,
  mem_destroy,
}

-- How often an address is in the tree, and among what was freed.
unfoldable pub times : ℕ → List Item → ℕ
times a [] = 0
times a (x ∷ xs) = if x.at == a then suc (times a xs) else times a xs

unfoldable pub times_freed : ℕ → List Freed → ℕ
times_freed a [] = 0
times_freed a (x ∷ xs) = if x.at == a then suc (times_freed a xs) else times_freed a xs

-- `ys` has the elements of `xs` and `v`.
pub record Adds (v : Item) (xs ys : List Item) : Type 0 where
  pub counts : (a : ℕ) → times a ys ≡ times a (v ∷ xs)
  pub longer : length ys ≡ suc (length xs)

abbrev pub Inserts : {T : Type 0} → (T → List Item) → T → Item → Option Item × T → Type 0
Inserts items t e (none, t') = Adds e (items t) (items t')
Inserts items t e (some v, t') = (t' ≡ t) × (0 < times v.at (items t))

abbrev pub Erases : {T : Type 0} → (T → List Item) → T → Option Item × T → Type 0
Erases items t (none, t') = t' ≡ t
Erases items t (some v, t') = Adds v (items t') (items t)

abbrev pub Firsts : {T : Type 0} → (T → List Item) → T → Option Item × T → Type 0
Firsts items t (none, t') = length (items t) ≡ 0
Firsts items t (some v, t') = Adds v (items t') (items t)

-- What kavl.h promises. An element that an insert finds is the one that an erase by its own data
-- takes out.
pub record Tree {T : Type 0} (k : Kavl T) : Type 0 where
  pub items : T → List Item
  pub null_items : items k.null ≡ []
  pub null_only : (t : T) → k.is_null t ≡ false → 0 < length (items t)
  pub null_empty : (t : T) → k.is_null t ≡ true → length (items t) ≡ 0
  pub inserts : (c : CmpType) (t : T) (e : Item) → Inserts items t e (k.insert c t e)
  pub erases : (c : CmpType) (t : T) (key : Elem) → Erases items t (k.erase c t key)
  pub own :
      (c : CmpType) (t : T) (e v : Item)
      → (k.insert c t e).0 ≡ some v
      → (k.erase c t v.elem).0 ≡ some v
  pub firsts : (t : T) → 0 < length (items t) → Firsts items t (k.erase_first t)

module _ {T : Type 0} (k : Kavl T) (tr : Tree k) where
  -- How often an address is held or was freed.
  abbrev pub owned : ℕ → Mphdr T → ℕ
  owned a hdr = times a (tr.items hdr.root) + times_freed a hdr.freed

  abbrev pub IsValid : Mphdr T → Type 0
  IsValid hdr = hdr.count ≡ length (tr.items hdr.root)

  -- Nothing is lost, and nothing is freed that was not held before.
  abbrev pub Moves : Mphdr T → Mphdr T → Type 0
  Moves hdr hdr' = (a : ℕ) → owned a hdr' ≡ owned a hdr

  destroy_elem-owned :
      (hdr : Mphdr T) (e : Item) (a : ℕ)
      → times_freed a (destroy_elem k hdr e).freed ≡ times a (e ∷ []) + times_freed a hdr.freed
  unfolding destroy_elem times times_freed
  destroy_elem-owned hdr e a = ground arith

  times-cons :
      (a : ℕ) (e : Item) (xs : List Item) → times a (e ∷ xs) ≡ times a (e ∷ []) + times a xs
  unfolding times
  times-cons a e xs = ground arith

  times_self : (e : Item) (xs : List Item) → 0 < times e.at (e ∷ xs)
  unfolding times
  times_self e xs = ground arith

  erased-Moves :
      (hdr : Mphdr T) (r : Option Item) (t : T)
      → Erases tr.items hdr.root (r, t)
      → IsValid hdr
      → IsValid (erased k hdr (r, t)) × Moves hdr (erased k hdr (r, t))
  unfolding destroy_elem
  erased-Moves hdr none t e v = (v ∙ ap (λ t. length (tr.items t)) (sym e), λ a. rw e refl)
  erased-Moves hdr (some x) t e v = (
    omega (arith, e.longer),
    λ a. omega (
      arith,
      destroy_elem-owned (record hdr { root = t }) x a,
      times-cons a x (tr.items t),
      e.counts a,
    ),
  )

  -- Deleting keeps the count right, and frees what it takes out of the tree.
  pub mem_delete-Moves :
      (hdr : Mphdr T) (key : Elem)
      → IsValid hdr
      → IsValid (mem_delete k hdr key) × Moves hdr (mem_delete k hdr key)
  unfolding mem_delete
  mem_delete-Moves hdr key v =
      let (r, t) = k.erase hdr.cmp_type hdr.root key in
      erased-Moves hdr r t (tr.erases hdr.cmp_type hdr.root key) v

  -- mem_add made the pool `hdr'` out of `hdr`, and answered `v`.
  abbrev pub Added : Item → Mphdr T → Item × Mphdr T → Type 0
  Added e hdr (v, hdr') =
      IsValid hdr'
      × ((a : ℕ) → owned a hdr' ≡ times a (e ∷ []) + owned a hdr)
      × (0 < times v.at (tr.items hdr'.root))
      × (v.elem.len ≤ e.elem.len)

  -- One element less, where an insert found the element that is deleted.
  found-shorter :
      (hdr : Mphdr T) (v : Item)
      → (k.erase hdr.cmp_type hdr.root v.elem).0 ≡ some v
      → suc (length (tr.items (mem_delete k hdr v.elem).root)) ≡ length (tr.items hdr.root)
  unfolding mem_delete destroy_elem
  found-shorter hdr v o =
      go (k.erase hdr.cmp_type hdr.root v.elem) o (tr.erases hdr.cmp_type hdr.root v.elem)
    where
      go :
          (r : Option Item × T)
          → r.0 ≡ some v
          → Erases tr.items hdr.root r
          → suc (length (tr.items (erased k hdr r).root)) ≡ length (tr.items hdr.root)
      go (none, t) o e = absurd cc
      go (some x, t) o e = sym e.longer

  Added-Moves :
      (e : Item) (hdr hdr' : Mphdr T) (r : Option (Item × Mphdr T))
      → Moves hdr hdr'
      → Returns r (Added e hdr')
      → Returns r (Added e hdr)
  Added-Moves e hdr hdr' r m ((w, h), q, (v, o, p, l)) =
      ((w, h), q, (v, λ a. omega (arith, o a, m a), p, l))

  inserted-Added :
      (fuel : ℕ) (hdr : Mphdr T) (e : Item) (r : Option Item) (t : T)
      → Inserts tr.items hdr.root e (r, t)
      → IsValid hdr
      → length (tr.items hdr.root) < suc fuel
      → ((v : Item) → r ≡ some v → (k.erase hdr.cmp_type hdr.root v.elem).0 ≡ some v)
      → ((hdr' : Mphdr T)
          → IsValid hdr'
          → length (tr.items hdr'.root) < fuel
          → Returns (mem_add k fuel hdr' e) (Added e hdr'))
      → Returns (inserted k hdr e (r, t) (λ hdr'. mem_add k fuel hdr' e)) (Added e hdr)
  unfolding destroy_elem
  inserted-Added fuel hdr e none t i v l o next = (
    _,
    refl,
    (
      omega (arith, i.longer),
      λ a. omega (arith, times-cons a e (tr.items hdr.root), i.counts a),
      omega (arith, times_self e (tr.items hdr.root), i.counts e.at),
      omega arith,
    ),
  )
  inserted-Added fuel hdr e (some x) t (i, p) v l o next =
      elim (Bool-cases (ltb e.elem.len x.elem.len)) [
        | inl y ↦
            let d = mem_delete-Moves hdr x.elem v in
            let s = found-shorter hdr x (o x refl) in
            rw (y, i)
              (Added-Moves e hdr (mem_delete k hdr x.elem) _ d.1
                (next (mem_delete k hdr x.elem) d.0 (omega arith)))
        | inr n ↦ rw (n, i) (_, refl, (v, λ a. found a, p, ground arith))
      ]
    where
      found : (a : ℕ) → owned a (destroy_elem k hdr e) ≡ times a (e ∷ []) + owned a hdr
      found a = omega (arith, destroy_elem-owned hdr e a)

  -- If an insert of an element that is there finds it, and the count is right, then mem_add ends
  -- after no more inserts than there are elements and one. The count is right again, and every
  -- address that was held, freed or handed in is still held or was freed as often: no element is
  -- lost or freed twice. What comes back is in the tree and is no longer than the new element.
  pub mem_add-Added :
      (fuel : ℕ) (hdr : Mphdr T) (e : Item)
      → IsValid hdr
      → length (tr.items hdr.root) < fuel
      → Returns (mem_add k fuel hdr e) (Added e hdr)
  unfolding mem_add
  mem_add-Added zero hdr e v l = absurd (omega arith)
  mem_add-Added (suc fuel) hdr e v l =
      let (r, t) = k.insert hdr.cmp_type hdr.root e in
      inserted-Added fuel hdr e r t (tr.inserts hdr.cmp_type hdr.root e) v l
        (tr.own hdr.cmp_type hdr.root e) (λ hdr' v' l'. mem_add-Added fuel hdr' e v' l')

  abbrev Emptied : Mphdr T → Mphdr T → Type 0
  Emptied hdr hdr' = (length (tr.items hdr'.root) ≡ 0) × Moves hdr hdr'

  after_first-Emptied :
      (fuel : ℕ) (hdr : Mphdr T) (r : Option Item) (t : T)
      → Firsts tr.items hdr.root (r, t)
      → 0 < length (tr.items hdr.root)
      → length (tr.items hdr.root) < suc fuel
      → ((hdr' : Mphdr T)
          → length (tr.items hdr'.root) < fuel
          → Returns (mem_destroy k fuel hdr') (Emptied hdr'))
      → Returns (after_first k hdr (r, t) (λ hdr'. mem_destroy k fuel hdr')) (Emptied hdr)
  unfolding destroy_elem
  after_first-Emptied fuel hdr none t f p l next = absurd (omega arith)
  after_first-Emptied fuel hdr (some x) t f p l next =
      let d = destroy_elem k (record hdr { root = t }) x in
      let (hdr', e, (z, m)) = next d (omega (arith, f.longer)) in
      (
        hdr',
        e,
        (
          z,
          λ a. omega (
            arith,
            m a,
            destroy_elem-owned (record hdr { root = t }) x a,
            times-cons a x (tr.items t),
            f.counts a,
          ),
        ),
      )

  -- mem_destroy ends after as many rounds as there are elements and one; the tree is empty, and
  -- each element was freed once.
  mem_destroy-Emptied :
      (fuel : ℕ) (hdr : Mphdr T)
      → length (tr.items hdr.root) < fuel
      → Returns (mem_destroy k fuel hdr) (Emptied hdr)
  unfolding mem_destroy
  mem_destroy-Emptied zero hdr l = absurd (omega arith)
  mem_destroy-Emptied (suc fuel) hdr l = elim (Bool-cases (k.is_null hdr.root)) [
    | inl y ↦ rw y (hdr, refl, (tr.null_empty hdr.root y, λ a. refl))
    | inr n ↦
        let p = tr.null_only hdr.root n in
        let (r, t) = k.erase_first hdr.root in
        rw n (
          after_first-Emptied fuel hdr r t (tr.firsts hdr.root p) p l
            (λ hdr' l'. mem_destroy-Emptied fuel hdr' l'))
  ]
