-- ===== src/Conev/Events.antt =====
-- The event table of conev.c: init_pool, add_event, del_event, destroy_pool, and next_event with
-- epoll. A struct eval is named by its place in pool->items; the array `links` orders them, and the first
-- `count` of them are in use. The answers of epoll_ctl and epoll_wait are given.
pub mod Table
pub mod Deletion
pub mod Closing
use byedpi.Prelude.{
  ℕ, zero, suc, ◌+◌, ◌-◌, ◌≡◌, ◌≤◌, Bool, true, false, Option, none, some, List, [], ◌∷◌, length,
  get_elem?, ltb, leb, ◌==◌, ◌>>=◌, if◌then◌else◌,
}
use byedpi.Conev.Buffers.{Buffer, Store, buff_push}
use byedpi.Conev.Timers.{Timer, remove_timer}

-- struct eval, as far as the table reads or writes it. The descriptor -1 is `none`.
pub record Eval : Type 0 where
  pub fd : Option ℕ
  pub index : ℕ
  pub mod_iter : ℕ
  pub pair : Option ℕ
  pub buff : Option Buffer
  pub sq_buff : Option Buffer
  pub has_fake : Bool
  pub has_host : Bool

-- struct poolhd. The entries behind `count` that were never in use hold what malloc left there, which
-- nothing reads: they are written as closed.
pub record Poolhd : Type 0 where
  pub max : ℕ
  pub count : ℕ
  pub iters : ℕ
  pub links : ℕ → ℕ
  pub items : ℕ → Eval
  pub timers : List Timer
  pub buffers : Store

abbrev pub set_at {ℓ} : {A : Type ℓ} → (ℕ → A) → ℕ → A → ℕ → A
set_at f i x j = if j == i then x else f j

abbrev pub closed : Eval
closed = record {
  fd = none;
  index = 0;
  mod_iter = 0;
  pair = none;
  buff = none;
  sq_buff = none;
  has_fake = false;
  has_host = false;
}

unfoldable pub init_pool : ℕ → Poolhd
init_pool count = record {
  max = count;
  count = 0;
  iters = 0;
  links = λ i. i;
  items = λ i. closed;
  timers = [];
  buffers = record { root = []; count = 0 };
}

-- `added` tells whether epoll_ctl takes the descriptor; if not, the entry is written all the same.
unfoldable pub add_event : Poolhd → ℕ → Bool → Option ℕ × Poolhd
add_event pool fd added =
    let val = pool.links pool.count in
    let items =
      set_at pool.items val
        (record closed { mod_iter = pool.iters; fd = some fd; index = pool.count }) in
    if leb pool.max pool.count
    then (none, pool)
    else if added
    then (some val, record pool { items = items; count = pool.count + 1 })
    else (none, record pool { items = items })

-- What the struct owns is given back, and it is marked as closed.
unfoldable pub release : Poolhd → ℕ → Poolhd
release pool val =
    let v = pool.items val in
    record pool {
      buffers = buff_push (buff_push pool.buffers v.buff) v.sq_buff;
      timers = remove_timer pool.timers val;
      items = set_at pool.items val (record v {
        buff = none;
        sq_buff = none;
        has_fake = false;
        has_host = false;
        fd = none;
        mod_iter = pool.iters;
      });
    }

-- The last one in use takes the place of the one that was closed.
unfoldable pub unlink : Poolhd → ℕ → Poolhd
unlink pool val =
    let last = pool.count - 1 in
    let ev = pool.links last in
    let index = (pool.items val).index in
    if ev == val then record pool { count = last } else record pool {
      count = last;
      links = set_at (set_at pool.links index ev) last val;
      items = set_at pool.items ev (record (pool.items ev) { index = index });
    }

abbrev pub is_pair : Option ℕ → ℕ → Bool
is_pair none v = false
is_pair (some p) v = p == v

abbrev pub set_pair : (ℕ → Eval) → ℕ → (ℕ → Eval)
set_pair items v = set_at items v (record (items v) { pair = none })

-- The two no longer point at each other.
unfoldable pub part : Poolhd → ℕ → ℕ → Poolhd
part pool val e =
    let items = if is_pair (pool.items e).pair val then set_pair pool.items e else pool.items in
    record pool { items = set_pair items val }

abbrev pub is_open : Option ℕ → Bool
is_open none = false
is_open (some fd) = true

-- Closing one closes its pair as well; `fuel` bounds the number of calls.
abbrev pub close_pair : Poolhd → ℕ → Option ℕ → (Poolhd → ℕ → Option Poolhd) → Option Poolhd
close_pair pool val none next = some pool
close_pair pool val (some e) next = next (part pool val e) e

unfoldable pub del_event : ℕ → Poolhd → ℕ → Option Poolhd
unfolding release unlink part
del_event zero pool val = none
del_event (suc fuel) pool val =
    let rest =
      close_pair (unlink (release pool val) val) val (pool.items val).pair
        (λ pool' e. del_event fuel pool' e) in
    if is_open (pool.items val).fd then rest else some pool

-- destroy_pool, up to the calls of free.
unfoldable pub destroy_pool : ℕ → Poolhd → Option Poolhd
unfolding del_event
destroy_pool zero pool = none
destroy_pool (suc fuel) pool =
    let next = del_event (suc fuel) pool (pool.links 0) >>= λ pool'. destroy_pool fuel pool' in
    if pool.count == 0 then some pool else next
