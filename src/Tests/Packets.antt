-- ===== src/Tests/Packets.antt =====
-- Witnesses and runs for the modules below Packets.
use byedpi.Prelude.{
  ◌+◌, ◌≡◌, ◌↔◌, refl, true, none, some, [], ◌∷◌, ◌++◌, arith, Bytes, replicate, Returns,
}
use byedpi.Prelude.Int.{pos, ◌-ℤ◌}
use byedpi.Prelude.Ctype.{codes, memchr, starts_at, starts_fold_at, strtol10}
use byedpi.Packets.Tls.{antohs, find_tls_ext_offset, find_ext, parse_tls}
use byedpi.Packets.Tls.Safe.{word_at, HostWithin, parse_tls-Returns}
use byedpi.Packets.Tls.Chain.{IsFirst, block_end, find_tls_ext_offset_iff}
use byedpi.Packets.Record.{part_tls}
use byedpi.Packets.Record.Split.{IsCut, part_tls-IsCut}
use byedpi.Packets.Edit.{merge_tls_records, remove_tls_ext}
use byedpi.Packets.Edit.Merge.{merge_tls_records-empty}
use byedpi.Packets.Edit.Remove.{Removal, remove_tls_ext-Returns}
use byedpi.Packets.Http.{
  parse_http, any_method, find_fold, skip_blanks, trim_back, back_digits, split_port, is_http,
  strncasestr, parse_host_line,
}
use byedpi.Packets.Http.Safe.{RequestWithin, parse_http-Returns}

-- Two extensions, of types 5 and 16, behind their length word.
abbrev extensions : Bytes
extensions = 0 ∷ 10 ∷ 0 ∷ 5 ∷ 0 ∷ 1 ∷ 7 ∷ 0 ∷ 16 ∷ 0 ∷ 0 ∷ 9 ∷ []

find_sixteen : find_tls_ext_offset 16 extensions 12 0 ≡ some 7
unfolding find_tls_ext_offset find_ext antohs
find_sixteen = refl

find_tls_ext_offset_iff_example :
    (find_tls_ext_offset 16 extensions 12 0 ≡ some 7)
    ↔ IsFirst 16 extensions (block_end extensions 12 0) (0 + 2) 7
find_tls_ext_offset_iff_example =
    find_tls_ext_offset_iff 16 extensions 12 0 7 (omega arith) (omega arith) (omega arith)

parse_tls-Returns_example : Returns (parse_tls extensions 12) (HostWithin 12)
parse_tls-Returns_example = parse_tls-Returns extensions 12 (omega arith)

abbrev request : Bytes
request = codes "GET / HTTP/1.1" ++ (13 ∷ 10 ∷ (codes "Host: ab.c:80" ++ (13 ∷ 10 ∷ [])))

request_host :
    parse_http true request 31 ≡ some (record { len = pos 4; hs = some 22; port = some 80 })
unfolding parse_http is_http any_method strncasestr find_fold skip_blanks parse_host_line trim_back
    back_digits split_port memchr starts_at starts_fold_at ◌-ℤ◌ strtol10
request_host = refl

parse_http-Returns_example : Returns (parse_http true request 31) (RequestWithin 31)
parse_http-Returns_example = parse_http-Returns true request 31 (omega arith)

-- A record of five bytes, in a buffer with room for more.
abbrev small_record : Bytes
small_record = 22 ∷ 3 ∷ 1 ∷ 0 ∷ 5 ∷ 1 ∷ 2 ∷ 3 ∷ 4 ∷ 5 ∷ replicate 8 0

part_tls-IsCut_example :
    Returns
      (part_tls small_record 18 10 (pos 2))
      (λ (ret, after). (ret ≡ 5) × IsCut small_record after 10 2 (word_at small_record 3))
part_tls-IsCut_example =
    part_tls-IsCut small_record 18 10 2 (omega arith) (omega arith) (omega arith) (omega arith)
      (omega arith)

-- The same bytes, with a length word of 1.
abbrev short_record : Bytes
short_record = 22 ∷ 3 ∷ 1 ∷ 0 ∷ 1 ∷ 1 ∷ 2 ∷ 3 ∷ 4 ∷ 5 ∷ replicate 8 0

-- A record of one byte, and an empty one behind it.
abbrev empty_second : Bytes
empty_second = 22 ∷ 3 ∷ 1 ∷ 0 ∷ 1 ∷ 1 ∷ 22 ∷ 3 ∷ 1 ∷ 0 ∷ 0 ∷ []

merge_tls_records-empty_example : merge_tls_records 1000 empty_second 11 ≡ some none
merge_tls_records-empty_example =
    merge_tls_records-empty 1000 empty_second 11 (omega arith)
      (record { ends = refl; same_type = refl; empty = refl })

remove_tls_ext-Returns_example :
    Returns (remove_tls_ext extensions 12 0 5) (Removal extensions 12 0 5)
remove_tls_ext-Returns_example = remove_tls_ext-Returns extensions 12 0 5 (omega arith)

-- A key share extension at 0 with a share of 9 bytes at 6 that ends at 19, in 15 bytes of data.
abbrev shares : Bytes
shares = 0 ∷ 51 ∷ 0 ∷ 11 ∷ 0 ∷ 9 ∷ 17 ∷ 236 ∷ 0 ∷ 9 ∷ 1 ∷ 2 ∷ 3 ∷ 4 ∷ 5 ∷ []
