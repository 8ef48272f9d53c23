-- ===== src/Mpool.antt =====
-- The comparisons of mpool.c, by which its AVL tree finds hosts, addresses and byte strings. An
-- element is its data and its length, in bits for CMP_BITS and in bytes else; `none` is a read
-- outside the data. The tree itself is kavl.h, a copy of klib.
pub mod Hosts
pub mod Pool
pub mod Prefix
use Prim.Native.Nat.{compare, Ordering}
use byedpi.Prelude.{
  ℕ, zero, suc, ◌+◌, ◌-◌, ◌*◌, ◌/◌, ◌%◌, ◌^◌, ◌&&◌, ◌||◌, Bool, true, false, Option, none, some,
  List, [], ◌∷◌, Bytes, read, length, ltb, leb, min, ◌==◌, ◌!=◌, if◌then◌else◌, ◌>>=◌,
}

-- The sign of an `int` result.
pub data Sign : Type 0 where
  less same more : Sign

unfoldable pub order : ℕ → ℕ → Sign
order a b = if ltb a b then less else if ltb b a then more else same

pub record Elem : Type 0 where
  pub len : ℕ
  pub body : Bytes

pub data CmpType : Type 0 where
  cmp_bytes cmp_bits cmp_host : CmpType

-- memcmp of `count` bytes from the offset `at` in both.
unfoldable pub memcmp : Bytes → Bytes → ℕ → ℕ → Option Sign
unfolding order
memcmp p q at zero = some same
memcmp p q at (suc count) = do
  a ← read p at
  b ← read q at
  if a == b then memcmp p q (at + 1) count else some (order a b)

-- (uint8_t)(c >> k) for a signed `char`: the shift keeps the sign.
unfoldable pub shift_char : ℕ → ℕ → ℕ
shift_char c k = if ltb c 128 then c / 2 ^ k else (c + 256 * 2 ^ k - 256) / 2 ^ k % 256

-- The bits behind the last whole byte.
unfoldable pub cmp_rest : Elem → Elem → ℕ → ℕ → Option Sign
unfolding order shift_char
cmp_rest p q bytes df = do
  a ← read p.body bytes
  b ← read q.body bytes
  some (order (shift_char a (8 - df)) (shift_char b (8 - df)))

abbrev pub is_same : Sign → Bool
is_same same = true
is_same _ = false

unfoldable pub bit_cmp : Elem → Elem → Option Sign
unfolding memcmp cmp_rest
bit_cmp p q =
    let len = if ltb q.len p.len then q.len else p.len in
    do
      cmp ← memcmp p.body q.body 0 (len / 8)
      if is_same cmp && len % 8 != 0 then cmp_rest p q (len / 8) (len % 8) else some cmp

unfoldable pub byte_cmp : Elem → Elem → Option Sign
unfolding memcmp
byte_cmp p q =
    if p.len != q.len
    then some (if ltb p.len q.len then less else more)
    else memcmp p.body q.body 0 p.len

-- `a < b` for two signed `char`s.
unfoldable pub char_lt : ℕ → ℕ → Bool
char_lt a b = ltb ((a + 128) % 256) ((b + 128) % 256)

-- while (len-- > 0) of host_cmp: `pd` and `qd` are the offsets of the two pointers. The pointers
-- come back too, for the test behind the loop.
unfoldable pub host_scan : ℕ → Bytes → ℕ → Bytes → ℕ → Option (Sign × ℕ × ℕ)
unfolding char_lt
host_scan zero p pd q qd = some (same, pd, qd)
host_scan (suc len) p pd q qd = do
  a ← read p (pd - 1)
  b ← read q (qd - 1)
  if a != b
      then some ((if char_lt a b then less else more), pd, qd)
      else host_scan len p (pd - 1) q (qd - 1)

-- host_cmp behind the loop.
unfoldable pub host_end : Elem → Elem → Sign → ℕ → ℕ → Option Sign
host_end p q cmp pd qd =
    if is_same cmp
    then if p.len == q.len then some same else (do
      dot ← if ltb q.len p.len then read p.body (pd - 1) else read q.body (qd - 1)
      some (if dot == b'.' then same else if ltb q.len p.len then more else less))
    else some cmp

unfoldable pub host_cmp : Elem → Elem → Option Sign
unfolding host_scan
host_cmp p q =
    let len = if ltb q.len p.len then q.len else p.len in
    do (cmp, pd, qd) ← host_scan len p.body p.len q.body q.len; host_end p q cmp pd qd

unfoldable pub scmp : CmpType → Elem → Elem → Option Sign
scmp cmp_bits p q = bit_cmp p q
scmp cmp_host p q = host_cmp p q
scmp cmp_bytes p q = byte_cmp p q
