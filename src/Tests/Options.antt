-- ===== src/Tests/Options.antt =====
-- The parsers of options and the requests of clients at concrete values.
use mathlib.Core.Option.{some-injective}
use byedpi.Prelude.{
  ap, sym, ◌==◌, ◌∙◌, ◌+◌, ◌-◌, ◌≢◌, ◌&&◌, leb, byte_at, if◌then◌else◌, if-cases, ℕ, ◌<◌, ◌≤◌, ◌≡◌,
  ◌⊎◌, refl, true, false, none, some, [], ◌∷◌, Bytes, arith, length, replicate, store, overwrite,
  load, Returns,
}
use byedpi.Prelude.Int.{ℤ, pos, negsuc}
use byedpi.Net.{Addr, inet, htons}
use byedpi.Prelude.Ctype.{starts_at, is_digit}
use byedpi.Options.Listen.{Numeric, strchr, str_end, opening, closing, port_number, get_addr}
use byedpi.Options.Listen.Schemes.{scheme_loop, get_addr_scheme}
use byedpi.Proxy.{Settings, flag_s5}
use byedpi.Proxy.Requests.{Modes, Client, Hook}
use byedpi.Proxy.Requests.Served.{Served}
use byedpi.Options.Text.{c_str, Scanf, parse_cform, data_from_str}
use byedpi.Options.Text.Bounds.{Reads, parse_cform-Filled}
use byedpi.Options.Text.Quote.{quote, data_from_str-quote}
use byedpi.Options.Hosts.{parse_hosts, hosts_loop, add_name, lower_char, is_break}
use byedpi.Options.Hosts.Words.{lowered, names_of, words, parse_hosts-words}
use byedpi.Options.Masks.{no_groups, add_group, add_groups}
use byedpi.Options.Masks.Fresh.{Has, Apart, add_group-Apart}
use byedpi.Desync.Offset.{none_mode, Part}
use byedpi.Options.Offsets.{Strtol, parse_offset, colon_loop, parse_flags}
use byedpi.Options.Offsets.Parsed.{Stays, Parses, parse_offset-Parses}
use byedpi.Options.Addresses.{InetPton, parse_ipset}
use byedpi.Options.Addresses.Fit.{Holds, Sizes, parse_ipset-Holds}

-- No number is behind a backslash.
abbrev no_numbers : Scanf
no_numbers = record { hex = λ str p. none; oct = λ str p. none }

abbrev text : Bytes
text = b'a' ∷ 92 ∷ b'n' ∷ b'b' ∷ 0 ∷ []

no_numbers-Reads : Reads text 4 (λ str p. none)
no_numbers-Reads p b n h e = absurd cc

parse_cform-Filled_example :
    Returns
      (parse_cform no_numbers (replicate 4 0) 4 text 4)
      (λ (b, i). (length b ≡ length (replicate {A = ℕ} 4 0)) × (i ≤ 4) × (i ≤ 4))
parse_cform-Filled_example =
    parse_cform-Filled no_numbers text 4 (omega arith) no_numbers-Reads no_numbers-Reads
      (replicate 4 0) 4 (omega arith)

data_from_str-quote_example :
    data_from_str no_numbers (quote (92 ∷ b'x' ∷ [])) ≡ some (some (92 ∷ b'x' ∷ []))
unfolding c_str
data_from_str-quote_example = data_from_str-quote no_numbers (92 ∷ b'x' ∷ []) (omega arith) no_zero
  where
    no_zero : c_str (92 ∷ b'x' ∷ []) ≡ 92 ∷ b'x' ∷ []
    no_zero = refl

abbrev list : Bytes
list = b'A' ∷ b'b' ∷ 10 ∷ b'_' ∷ 32 ∷ b'c' ∷ []

parse_hosts-words_example : parse_hosts list 6 ≡ some (lowered list, names_of (words list))
parse_hosts-words_example = parse_hosts-words list

-- The name with the underscore is dropped.
parse_hosts_run :
    parse_hosts list 6
    ≡ some (b'a' ∷ b'b' ∷ 10 ∷ b'_' ∷ 32 ∷ b'c' ∷ [], (b'a' ∷ b'b' ∷ []) ∷ (b'c' ∷ []) ∷ [])
unfolding parse_hosts hosts_loop add_name lower_char is_break store overwrite load
parse_hosts_run = refl

add_group-Apart_example : Returns (add_groups 3 no_groups) (λ p.
    ((3 < 32) × Returns (add_group p) (λ p'. Has 4 p' × Apart p p'))
    ⊎ ((◌≡◌ {A = ℕ} 3 32) × (add_group p ≡ none)))
add_group-Apart_example = add_group-Apart 3 (omega arith)

abbrev modes : Modes
modes = record {
  socks4 = false;
  socks5 = true;
  http = false;
  shadowsocks = false;
  rawtls = false;
  tcp = false;
  udp = false;
  auto_reconnect = true;
}

abbrev hook : Hook
hook = record { connect = λ a. pos 0; associate = λ a. negsuc 0 }

abbrev settings : Settings
settings = record { resolve = false; ipv6 = true }

abbrev zeros : Addr
zeros = record { family = inet; port = 0; v4 = replicate 4 0; v6 = replicate 16 0 }

abbrev client : Client
client = record { flag = flag_s5; buff = none; sq_buff = none; recv_count = 0; round_count = 0 }

-- CONNECT 1.2.3.4:80
abbrev request : Bytes
request = 5 ∷ 1 ∷ 0 ∷ 1 ∷ 1 ∷ 2 ∷ 3 ∷ 4 ∷ 0 ∷ 80 ∷ []

-- Any text is one address.
abbrev pton : InetPton
pton = record { inet4 = λ s. some (10 ∷ 0 ∷ 0 ∷ 1 ∷ []); inet6 = λ s. none }

pton-Sizes : Sizes pton
pton-Sizes = record {
  four = λ s a e. sym (ap length (some-injective (10 ∷ 0 ∷ 0 ∷ 1 ∷ []) a e));
  sixteen = λ s a e. absurd cc;
}

abbrev addresses : Bytes
addresses = b'a' ∷ b'/' ∷ b'9' ∷ b' ' ∷ b'b' ∷ []

addresses_run :
    parse_ipset pton addresses 5
    ≡ some (
        record { len = 9; body = 10 ∷ 0 ∷ [] }
        ∷ record { len = 32; body = 10 ∷ 0 ∷ 0 ∷ 1 ∷ [] }
        ∷ [])
unfolding parse_ipset load byedpi.Prelude.Ctype.memchr byedpi.Prelude.Ctype.strtol10 store
addresses_run = refl

parse_ipset-Holds_example : Returns (parse_ipset pton addresses 5) Holds
parse_ipset-Holds_example = parse_ipset-Holds pton pton-Sizes addresses

-- Numbers of one digit.
abbrev one_digit : Bytes → ℕ → ℤ × ℕ
one_digit str at =
    if leb b'0' (byte_at str at) && leb (byte_at str at) b'9'
    then (pos (byte_at str at - b'0'), at + 1)
    else (pos 0, at)

one_digit-between :
    (str : Bytes) (at stop : ℕ)
    → at ≤ stop
    → stop < length str
    → byte_at str stop ≡ 0
    → (at ≤ (one_digit str at).1) × ((one_digit str at).1 ≤ stop)
one_digit-between str at stop h l z =
    if-cases (λ (x : ℤ × ℕ). (at ≤ x.1) × (x.1 ≤ stop))
      (leb b'0' (byte_at str at) && leb (byte_at str at) b'9') _ _
      (λ y.
        let before : at ≢ stop = λ e. not_zero y (ap (byte_at str) e ∙ z) in
        (omega arith, omega arith))
      (λ n. (omega arith, h))
  where
    not_zero :
        (leb b'0' (byte_at str at) && leb (byte_at str at) b'9') ≡ true → byte_at str at ≡ 0 → ⊥
    not_zero y e = ground arith

abbrev digits : Strtol
digits = record { scan = one_digit }

digits-Stays : Stays digits
digits-Stays = record { stays = one_digit-between }

-- 5:2:7+he
abbrev offset_text : Bytes
offset_text = b'5' ∷ b':' ∷ b'2' ∷ b':' ∷ b'7' ∷ b'+' ∷ b'h' ∷ b'e' ∷ 0 ∷ []

abbrev fresh_part : Part
fresh_part = record { m = none_mode; at = pos 0; flag = 0; r = 0; s = 0 }

parse_offset-Parses_example :
    Returns
      (parse_offset digits offset_text fresh_part)
      (Parses fresh_part (one_digit offset_text 0).0)
parse_offset-Parses_example =
    parse_offset-Parses offset_text 8 (omega arith) refl digits digits-Stays fresh_part refl refl
      refl

parse_offset_run :
    parse_offset digits offset_text fresh_part
    ≡ some (some (record { m = none_mode; at = pos 5; flag = 17; r = 2; s = 7 }))
unfolding parse_offset colon_loop parse_flags
parse_offset_run = refl

-- A system that knows one name.
abbrev one_host : Numeric
one_host = record {
  lookup = λ name. if length name == 1 then some (inet, 10 ∷ 0 ∷ 0 ∷ 7 ∷ []) else none;
}

abbrev listen_text : Bytes
listen_text = b's' ∷ b's' ∷ b':' ∷ b'/' ∷ b'/' ∷ b'a' ∷ b':' ∷ b'8' ∷ 0 ∷ []

abbrev any_addr : Addr
any_addr = record { family = inet; port = 14340; v4 = 0 ∷ 0 ∷ 0 ∷ 0 ∷ []; v6 = [] }

get_addr_scheme_run :
    get_addr_scheme digits one_host listen_text any_addr
    ≡ some (some (16, record { family = inet; port = 2048; v4 = 10 ∷ 0 ∷ 0 ∷ 7 ∷ []; v6 = [] }))
unfolding get_addr_scheme scheme_loop starts_at get_addr opening strchr str_end closing port_number
    is_digit load htons
get_addr_scheme_run = refl
