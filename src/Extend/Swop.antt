-- ===== src/Extend/Swop.antt =====
-- swop_groups of extend.c: two groups change places in the linked list of groups. A struct
-- desync_params is named by its id, and its fields are the values of the maps at that id.
pub mod Order
pub mod Places
pub mod Links
pub mod Exchanged
use byedpi.Prelude.{ℕ, Bool, false, Option, none, some, ◌==◌, if◌then◌else◌, ◌>>=◌}
use byedpi.Conev.Events.{set_at}

-- The fields that swop_groups reads or writes, and params.dp.
pub record Groups : Type 0 where
  pub prev : ℕ → Option ℕ
  pub next : ℕ → Option ℕ
  pub detect : ℕ → ℕ
  pub auto_level : ℕ → ℕ
  pub head : ℕ

abbrev pub is_at : Option ℕ → ℕ → Bool
is_at none i = false
is_at (some j) i = j == i

-- The fields of `c` and `n` change places.
unfoldable pub exchanged {ℓ} : {A : Type ℓ} → (ℕ → A) → ℕ → ℕ → ℕ → A
exchanged f c n = set_at (set_at f c (f n)) n (f c)

-- if (p) p->field = i
unfoldable pub set_if : (ℕ → Option ℕ) → Option ℕ → ℕ → ℕ → Option ℕ
set_if f none i = f
set_if f (some p) i = set_at f p (some i)

-- The pointers of the neighbours, from `prev` and `next` as they are after the fields of both
-- groups are exchanged; `none` is an access through a null pointer.
abbrev pub mend :
    (ℕ → Option ℕ) → (ℕ → Option ℕ) → ℕ → ℕ → Bool → Option ((ℕ → Option ℕ) × (ℕ → Option ℕ))
mend prev next c n adjacent =
    if adjacent then some (set_at prev c (some n), set_at next n (some c)) else (do
      behind ← next n
      let prev' = set_at prev behind (some n)
      front ← prev' c
      some (prev', set_at next front (some c)))

unfoldable pub swop_groups : Groups → ℕ → ℕ → Option Groups
unfolding exchanged set_if
swop_groups g c n =
    let prev = exchanged g.prev c n in
    let next = set_if (exchanged g.next c n) (prev n) n in
    let prev' = set_if prev (next c) c in
    mend prev' next c n (is_at (g.next c) n) >>= λ (p, q). some (record {
      prev = p;
      next = q;
      detect = exchanged g.detect c n;
      auto_level = exchanged g.auto_level c n;
      head = if g.head == c then n else g.head;
    })
