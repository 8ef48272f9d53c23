-- ===== src/Desync/Offset.antt =====
-- Where desync.c cuts: struct part and struct proto_info, init_proto_info and gen_offset. A `long`
-- is an unbounded integer; `none` is an access outside the buffer or a division by zero.
use Prim.Native.Nat.{max}
use byedpi.Prelude.{
  ℕ, zero, suc, ◌+◌, ◌-◌, ◌/◌, ◌%◌, ◌&&◌, ◌||◌, not, Bool, true, false, Option, none, some, List,
  [], ◌∷◌, ◌++◌, Bytes, has, ◌==◌, if◌then◌else◌, ◌>>=◌,
}
use byedpi.Prelude.Int.{ℤ, pos, negsuc, ◌+ℤ◌}
use byedpi.Packets.Tls.{parse_tls}
use byedpi.Packets.Http.{Request, parse_http}
use byedpi.Packets.Record.{sub_size}
use byedpi.Packets.Edit.{Stream, later, is_zero}

abbrev pub offset_end : ℕ
offset_end = 1

abbrev pub offset_mid : ℕ
offset_mid = 2

abbrev pub offset_rand : ℕ
offset_rand = 4

abbrev pub offset_sni : ℕ
offset_sni = 8

abbrev pub offset_host : ℕ
offset_host = 16

abbrev pub offset_start : ℕ
offset_start = 32

-- enum demode.
pub data Mode : Type 0 where
  none_mode split disorder oob disoob fake : Mode

-- struct part; the field `at` is its `pos`. parse_offset refuses negative counts.
pub record Part : Type 0 where
  pub m : Mode
  pub flag : ℕ
  pub at : ℤ
  pub r : ℕ
  pub s : ℕ

-- The iterations of `for (; r > 0 || i < parts_n; r--)`: the part, and `part.r - r`.
abbrev numbered : Part → ℕ → ℕ → List (Part × ℕ)
numbered part zero d = []
numbered part (suc k) d = (part, d) ∷ numbered part k (d + 1)

unfoldable pub passes : List Part → List (Part × ℕ)
passes [] = []
passes (part ∷ parts) = numbered part (max 1 part.r) 0 ++ passes parts

pub data Proto : Type 0 where
  unknown http https : Proto

abbrev pub is_https : Proto → Bool
is_https https = true
is_https _ = false

-- struct proto_info.
pub record Info : Type 0 where
  pub init : Bool
  pub type : Proto
  pub host_len : ℤ
  pub host_pos : ℕ

abbrev pub no_info : Info
no_info = record { init = false; type = unknown; host_len = pos 0; host_pos = 0 }

-- `host ? host - buffer : 0`, where a second parser may leave the pointer of the first.
abbrev pub host_at : Option ℕ → Option ℕ → ℕ
host_at none none = 0
host_at none (some h) = h
host_at (some h) _ = h

abbrev seen_http : Info → Option ℕ → Request → Info
seen_http info tls r = record {
  init = true;
  type = if is_zero r.len then info.type else http;
  host_len = r.len;
  host_pos = host_at r.hs tls;
}

unfoldable pub init_proto_info : Bytes → ℕ → Info → Option Info
init_proto_info buf n info = if info.init then some info else (do
  t ← parse_tls buf n
  if t.len == 0
      then (do r ← parse_http false buf n; some (seen_http info t.hs r))
      else some (record {
        init = true;
        type = https;
        host_len = pos t.len;
        host_pos = host_at t.hs none;
      }))

-- Division and remainder of C, which round to zero.
abbrev pub half : ℤ → ℤ
half (pos k) = pos (k / 2)
half (negsuc k) = if k == 0 then pos 0 else negsuc (suc k / 2 - 1)

abbrev pub rem : ℕ → ℤ → Option ℕ
rem a (pos zero) = none
rem a (pos (suc k)) = some (a % suc k)
rem a (negsuc k) = some (a % suc k)

-- The offset in a host that was found.
unfoldable pub host_offset : Stream → ℤ → ℕ → Info → Option (ℤ × Stream)
host_offset rnd at flag info =
    if has flag offset_end
    then some (at +ℤ info.host_len, rnd)
    else if has flag offset_mid
    then some (at +ℤ half info.host_len, rnd)
    else if has flag offset_rand
    then (do k ← rem (rnd 0) info.host_len; some (at +ℤ pos k, later rnd 1))
    else some (at, rnd)

abbrev pub is_negative : ℤ → Bool
is_negative (pos n) = false
is_negative (negsuc n) = true

unfoldable pub plain_offset : Stream → ℤ → ℕ → ℕ → ℕ → Option (ℤ × Stream)
plain_offset rnd at flag n lp =
    if has flag offset_rand
    then (do k ← rem (rnd 0) (pos (sub_size n lp)); some (at +ℤ pos (lp + k), later rnd 1))
    else some (
      if has flag offset_mid
          then at +ℤ pos (n / 2)
          else if is_negative at || has flag offset_end
          then at +ℤ pos n
          else at,
      rnd,
    )

unfoldable pub gen_offset : Stream → ℤ → ℕ → Bytes → ℕ → ℕ → Info → Option (ℤ × Info × Stream)
gen_offset rnd at flag buf n lp info =
    if has flag (offset_sni + offset_host)
    then (do
      seen ← init_proto_info buf n info
      if (seen.host_pos == 0) || (has flag offset_sni && not (is_https seen.type))
          then some (negsuc 0, seen, rnd)
          else (do
            (at', rnd') ← host_offset rnd (at +ℤ pos seen.host_pos) flag seen
            some (at', seen, rnd')))
    else (do (at', rnd') ← plain_offset rnd at flag n lp; some (at', info, rnd'))
