-- ===== src/Tests/Stubs.antt =====
-- A fat file with one slice, for x86_64, and what is found in it.
use macos_c_debugger_rust.Base.{ℕ, List, [], ◌∷◌, ◌++◌, ◌≡◌, refl, arith, replicate, position_from}
use macos_c_debugger_rust.Base.Bytes.{from_be, from_le, slice, AllBytes, to_le}
use macos_c_debugger_rust.Base.Text.{codes, starts_with, strip_prefix, text_eq}
use macos_c_debugger_rust.StubFinder.{
  find_stubs, get_thin_slice, parse_thin_macho64, read_u32_be, read_u32_le, read_u64_le,
  scan_commands, command, section, scan_sections, scan_stubs, stub, symbol_name, contains,
  insert_stub,
}
use macos_c_debugger_rust.StubFinder.Wanted.{AllStubs, tables_of, find_stubs-AllStubs}
use macos_c_debugger_rust.StubFinder.Fat.{find_stubs-NoTarget}

-- The header, and one entry: 0x01000007, a subtype, an offset, a size and an alignment.
abbrev fat_file : List ℕ
fat_file =
    0xca ∷ 0xfe ∷ 0xba ∷ 0xbe ∷ 0 ∷ 0 ∷ 0 ∷ 1 ∷ 1 ∷ 0 ∷ 0 ∷ 7 ∷ 0 ∷ 0 ∷ 0 ∷ 3 ∷ 0 ∷ 0 ∷ 0 ∷ 28 ∷ 0
    ∷ 0 ∷ 0 ∷ 4 ∷ 0 ∷ 0 ∷ 0 ∷ 0 ∷ 0xcf ∷ 0xfa ∷ 0xed ∷ 0xfe ∷ []

fat_file-AllBytes : AllBytes fat_file
fat_file-AllBytes = ground arith

find_stubs-NoTarget_example : find_stubs fat_file (codes "malloc" ∷ []) ≡ []
unfolding from_be read_u32_be slice
find_stubs-NoTarget_example =
    find_stubs-NoTarget fat_file (codes "malloc" ∷ []) 1 fat_file-AllBytes (omega arith) refl refl
      ((λ e. ground (arith, e)), tt)

abbrev zeros : ℕ → List ℕ
zeros n = replicate n 0

-- A thin file with the stub of `malloc` at 0x1000: the header, the three load commands, a symbol, an
-- indirect symbol and the strings.
abbrev thin_file : List ℕ
thin_file =
    to_le 4 0xfeedfacf
    ++ zeros 12
    ++ to_le 4 3
    ++ zeros 12
    ++ to_le 4 0x2
    ++ to_le 4 24
    ++ to_le 4 288
    ++ to_le 4 1
    ++ to_le 4 308
    ++ zeros 4
    ++ to_le 4 0xb
    ++ to_le 4 80
    ++ zeros 48
    ++ to_le 4 304
    ++ zeros 20
    ++ to_le 4 0x19
    ++ to_le 4 152
    ++ codes "__TEXT"
    ++ zeros 50
    ++ to_le 4 1
    ++ zeros 4
    ++ codes "__stubs"
    ++ zeros 9
    ++ codes "__TEXT"
    ++ zeros 10
    ++ to_le 8 0x1000
    ++ to_le 8 6
    ++ zeros 20
    ++ zeros 4
    ++ to_le 4 6
    ++ zeros 4
    ++ to_le 4 1
    ++ zeros 12
    ++ zeros 4
    ++ zeros 1
    ++ codes "_malloc"
    ++ zeros 1

malloc_found : find_stubs thin_file (codes "malloc" ∷ []) ≡ (codes "malloc", 0x1000) ∷ []
unfolding find_stubs get_thin_slice parse_thin_macho64 scan_commands command section scan_sections
    scan_stubs stub symbol_name contains insert_stub to_le from_le from_be slice read_u32_le
    read_u64_le read_u32_be starts_with strip_prefix position_from text_eq
malloc_found = refl

find_stubs-AllStubs_example :
    AllStubs
      (codes "malloc" ∷ [])
      (tables_of (get_thin_slice thin_file))
      (find_stubs thin_file (codes "malloc" ∷ []))
find_stubs-AllStubs_example = find_stubs-AllStubs thin_file (codes "malloc" ∷ [])
