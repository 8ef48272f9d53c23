-- ===== src/Tests/Pool.antt =====
-- The pool over a tree that is a list, where elements are the same when their first bytes are.
use byedpi.Prelude.{
  ℕ, suc, ◌≡◌, ◌<◌, ◌∙◌, refl, ap, inl, inr, Bool, true, false, Option, none, some, List, [], ◌∷◌,
  length, arith, byte_at, map, Bytes, ◌==◌, if◌then◌else◌, Bool-cases, Returns,
}
use byedpi.Prelude.Ctype.{codes}
use byedpi.Mpool.{Elem, cmp_bits, less, same, host_cmp, host_scan, host_end, char_lt}
use byedpi.Mpool.Pool.{Item, Kavl, Mphdr, mem_add, mem_delete, destroy_elem}
use byedpi.Mpool.Pool.Owned.{times, Erases, Inserts, Firsts, Tree, Added, mem_add-Added}

abbrev pub key : Elem → ℕ
key e = byte_at e.body 0

unfoldable pub search : List Item → ℕ → Option Item
search [] n = none
search (x ∷ xs) n = if key x.elem == n then some x else search xs n

abbrev pub cons_to : Item → Option Item × List Item → Option Item × List Item
cons_to x (r, xs) = (r, x ∷ xs)

unfoldable pub take_out : List Item → ℕ → Option Item × List Item
take_out [] n = (none, [])
take_out (x ∷ xs) n =
    let rest = take_out xs n in if key x.elem == n then (some x, xs) else cons_to x rest

unfoldable pub put_in : List Item → Item → Option Item → Option Item × List Item
put_in t e none = (none, e ∷ t)
put_in t e (some v) = (some v, t)

unfoldable pub first_out : List Item → Option Item × List Item
first_out [] = (none, [])
first_out (x ∷ xs) = (some x, xs)

abbrev pub is_nil : List Item → Bool
is_nil [] = true
is_nil (x ∷ xs) = false

unfoldable pub lists : Kavl (List Item)
lists = record {
  null = [];
  is_null = is_nil;
  find = λ c t e. search t (key e);
  insert = λ c t e. put_in t e (search t (key e.elem));
  erase = λ c t e. take_out t (key e);
  erase_first = first_out;
}

search-key :
    (t : List Item) (n : ℕ) (v : Item) → search t n ≡ some v → (key v.elem ≡ n) × (0 < times v.at t)
unfolding search times
search-key [] n v e = absurd cc
search-key (x ∷ xs) n v e = ground (arith, search-key xs n v)

take_out-search : (t : List Item) (n : ℕ) → (take_out t n).0 ≡ search t n
unfolding take_out search
take_out-search [] n = refl
take_out-search (x ∷ xs) n = elim (Bool-cases (key x.elem == n)) [
  | inl y ↦ rw y refl
  | inr z ↦ rw z (take_out-search xs n)
]

cons_to-Erases :
    (x : Item) (xs : List Item) (r : Option Item × List Item)
    → Erases (λ t. t) xs r
    → Erases (λ t. t) (x ∷ xs) (cons_to x r)
unfolding times
cons_to-Erases x xs (none, t) e = ap (λ t. x ∷ t) e
cons_to-Erases x xs (some v, t) e = record {
  counts = λ a. ground (arith, e.counts a);
  longer = ap suc e.longer;
}

pub take_out-Erases : (t : List Item) (n : ℕ) → Erases (λ t. t) t (take_out t n)
unfolding take_out times
take_out-Erases [] n = refl
take_out-Erases (x ∷ xs) n = elim (Bool-cases (key x.elem == n)) [
  | inl y ↦ rw y (record { counts = λ a. refl; longer = refl })
  | inr z ↦ rw z (cons_to-Erases x xs (take_out xs n) (take_out-Erases xs n))
]

pub put_in-Inserts :
    (t : List Item) (e : Item) (r : Option Item)
    → search t (key e.elem) ≡ r
    → Inserts (λ t. t) t e (put_in t e r)
unfolding put_in
put_in-Inserts t e none h = record { counts = λ a. refl; longer = refl }
put_in-Inserts t e (some v) h = (refl, (search-key t (key e.elem) v h).1)

pub put_in-own :
    (t : List Item) (e v : Item) (r : Option Item)
    → search t (key e.elem) ≡ r
    → (put_in t e r).0 ≡ some v
    → (take_out t (key v.elem)).0 ≡ some v
unfolding put_in
put_in-own t e v none h q = absurd cc
put_in-own t e v (some w) h q =
    let same = (search-key t (key e.elem) v (h ∙ q)).0 in
    take_out-search t (key v.elem) ∙ (ap (search t) same ∙ (h ∙ q))

unfoldable pub lists-Tree : Tree lists
unfolding lists first_out
lists-Tree = record {
  items = λ t. t;
  null_items = refl;
  null_only = λ t n. not_nil t n;
  null_empty = λ t n. nil t n;
  inserts = λ c t e. put_in-Inserts t e _ refl;
  erases = λ c t e. take_out-Erases t (key e);
  own = λ c t e v h. put_in-own t e v _ refl h;
  firsts = λ t l. first t l;
}
  where
    not_nil : (t : List Item) → is_nil t ≡ false → 0 < length t
    not_nil [] n = absurd cc
    not_nil (x ∷ xs) n = omega arith

    nil : (t : List Item) → is_nil t ≡ true → length t ≡ 0
    nil [] n = refl
    nil (x ∷ xs) n = absurd cc

    first : (t : List Item) → 0 < length t → Firsts (λ t. t) t (first_out t)
    first [] l = absurd (omega arith)
    first (x ∷ xs) l = record { counts = λ a. refl; longer = refl }

abbrev item : ℕ → ℕ → ℕ → Item
item at len byte = record { at = at; elem = record { len = len; body = byte ∷ [] } }

-- Two networks of one byte, and another.
abbrev pool : Mphdr (List Item)
pool = record {
  is_static = false;
  has_extra = false;
  cmp_type = cmp_bits;
  count = 3;
  root = item 1 8 10 ∷ item 2 8 20 ∷ item 3 8 10 ∷ [];
  freed = [];
}

mem_add-Added_example :
    Returns (mem_add lists 4 pool (item 4 4 10)) (Added lists lists-Tree (item 4 4 10) pool)
unfolding lists-Tree
mem_add-Added_example = mem_add-Added lists lists-Tree 4 pool (item 4 4 10) refl (omega arith)

abbrev left_in : Option (Item × Mphdr (List Item)) → Option (ℕ × List ℕ × List ℕ)
left_in none = none
left_in (some (v, hdr)) = some (hdr.count, map (λ x. x.at) hdr.root, map (λ x. x.at) hdr.freed)

-- The shorter network takes the place of both.
mem_add_run : left_in (mem_add lists 4 pool (item 4 4 10)) ≡ some (2, 4 ∷ 2 ∷ [], 3 ∷ 1 ∷ [])
unfolding mem_add mem_delete destroy_elem lists search take_out put_in
mem_add_run = refl

abbrev name : Bytes → Elem
name bs = record { len = length bs; body = bs }

-- `f` is below `a-f`, which is below `b.f`, and yet `f` and `b.f` are the same: the tree is not in one
-- order.
host_cmp_run :
    (host_cmp (name (codes "f")) (name (codes "a-f")) ≡ some less)
    × (host_cmp (name (codes "a-f")) (name (codes "b.f")) ≡ some less)
    × (host_cmp (name (codes "f")) (name (codes "b.f")) ≡ some same)
unfolding host_cmp host_scan host_end char_lt
host_cmp_run = (refl, refl, refl)
