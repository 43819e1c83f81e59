-- ===== src/StubFinder.antt =====
-- src/stub_finder.rs: the addresses of the stubs of foreign functions in a Mach-O file, which is a
-- list of bytes. A name that is not UTF-8 equals no wanted name, so it needs no test of its own.
pub mod Fat
pub mod Wanted
use macos_c_debugger_rust.Base.{
  ℕ, zero, suc, Bool, true, false, List, [], ◌∷◌, ◌++◌, Option, none, some, ◌==◌, if◌then◌else◌,
  ◌+◌, ◌*◌, ◌/◌, ◌%◌, ◌^◌, leb, ltb, length, take, drop, position_from, unwrap_or, ◌||◌, ◌&&◌,
}
use macos_c_debugger_rust.Base.Bytes.{from_le, from_be, slice}
use macos_c_debugger_rust.Base.Text.{Text, codes, text_eq, strip_prefix, starts_with}

-- `TARGET_CPUTYPE_BE` of x86_64: 0x00000107 with its bytes swapped.
abbrev pub target_cputype_be : ℕ
target_cputype_be = 0x07010000

abbrev pub number_of : (List ℕ → ℕ) → Option (List ℕ) → Option ℕ
number_of f none = none
number_of f (some bytes) = some (f bytes)

unfoldable pub read_u32_le : List ℕ → ℕ → Option ℕ
read_u32_le file off = number_of from_le (slice file off (off + 4))

unfoldable pub read_u64_le : List ℕ → ℕ → Option ℕ
read_u64_le file off = number_of from_le (slice file off (off + 8))

unfoldable pub read_u32_be : List ℕ → ℕ → Option ℕ
read_u32_be file off = number_of from_be (slice file off (off + 4))

unfoldable pub read_u64_be : List ℕ → ℕ → Option ℕ
read_u64_be file off = number_of from_be (slice file off (off + 8))

-- `file.get(o..o + s)` where both are known.
abbrev pub slice_of : List ℕ → Option ℕ → Option ℕ → Option (List ℕ)
slice_of file none s = none
slice_of file (some o) none = none
slice_of file (some o) (some s) = slice file o (o + s)

-- The slice that the entry of a fat header names.
unfoldable pub fat_slice : List ℕ → Bool → ℕ → Option (List ℕ)
fat_slice file is_fat64 off =
    if is_fat64
    then slice_of file (read_u64_be file (off + 8)) (read_u64_be file (off + 16))
    else slice_of file (read_u32_be file (off + 8)) (read_u32_be file (off + 12))

-- The first entry for this processor whose slice lies in the file; else the file itself.
unfoldable pub scan_archs : ℕ → List ℕ → Bool → ℕ → List ℕ
scan_archs zero file is_fat64 off = file
scan_archs (suc n) file is_fat64 off =
    let next = scan_archs n file is_fat64 (off + (if is_fat64 then 32 else 20)) in
    elim (read_u32_be file off) [
      | none ↦ file
      | some cputype ↦
          if cputype == target_cputype_be
          then unwrap_or (fat_slice file is_fat64 off) next
          else next
    ]

abbrev pub is_fat : ℕ → Bool
is_fat magic = magic == 0xcafebabe || magic == 0xcafebabf

unfoldable pub get_thin_slice : List ℕ → List ℕ
get_thin_slice file =
    let magic = from_be (take 4 file) in
    if ltb (length file) 8
    then file
    else (if is_fat magic
        then (elim (read_u32_be file 4) [
          | none ↦ file
          | some n ↦ scan_archs n file (magic == 0xcafebabf) 8
        ])
        else file)

-- What the load commands say: the symbol table, the indirect symbols and the section of stubs.
pub record Tables : Type 0 where
  pub symoff : ℕ
  pub nsyms : ℕ
  pub stroff : ℕ
  pub indirectsymoff : ℕ
  pub stubs_addr : ℕ
  pub stubs_size : ℕ
  pub stubs_entry_size : ℕ
  pub stubs_indirect_start : ℕ

abbrev pub no_tables : Tables
no_tables = record {
  symoff = 0;
  nsyms = 0;
  stroff = 0;
  indirectsymoff = 0;
  stubs_addr = 0;
  stubs_size = 0;
  stubs_entry_size = 0;
  stubs_indirect_start = 0;
}

abbrev pub bytes_between : List ℕ → ℕ → ℕ → List ℕ
bytes_between file lo hi = unwrap_or (slice file lo hi) []

abbrev pub is_text : List ℕ → Bool
is_text name = starts_with (codes "__TEXT" ++ 0 ∷ []) name

unfoldable pub section : List ℕ → Bool → ℕ → Tables → Tables
section file in_segment off t =
    let in_text = in_segment || is_text (bytes_between file (off + 16) (off + 32)) in
    if in_text && starts_with (codes "__stubs" ++ 0 ∷ []) (bytes_between file off (off + 16))
    then record t {
      stubs_addr = unwrap_or (read_u64_le file (off + 32)) 0;
      stubs_size = unwrap_or (read_u64_le file (off + 40)) 0;
      stubs_indirect_start = unwrap_or (read_u32_le file (off + 68)) 0;
      stubs_entry_size = unwrap_or (read_u32_le file (off + 72)) 0;
    }
    else t

unfoldable pub scan_sections : ℕ → List ℕ → Bool → ℕ → Tables → Tables
scan_sections zero file in_segment off t = t
scan_sections (suc n) file in_segment off t =
    let rest = scan_sections n file in_segment (off + 80) (section file in_segment off t) in
    if ltb (length file) (off + 80) then t else rest

abbrev pub with_symtab : Option ℕ → Option ℕ → Option ℕ → Tables → Tables
with_symtab (some so) (some ns) (some stro) t = record t { symoff = so; nsyms = ns; stroff = stro }
with_symtab _ _ _ t = t

unfoldable pub command : List ℕ → ℕ → ℕ → Tables → Tables
command file cmd off t =
    if cmd == 0x2
    then with_symtab (read_u32_le file (off + 8)) (read_u32_le file (off + 12))
        (read_u32_le file (off + 16)) t
    else (if cmd == 0xb
        then record t { indirectsymoff = unwrap_or (read_u32_le file (off + 56)) t.indirectsymoff }
        else (if cmd == 0x19
            then scan_sections (unwrap_or (read_u32_le file (off + 64)) 0) file
                (is_text (bytes_between file (off + 8) (off + 24))) (off + 72) t
            else t))

unfoldable pub scan_commands : ℕ → List ℕ → ℕ → Tables → Tables
scan_commands zero file off t = t
scan_commands (suc n) file off t = elim (read_u32_le file off) [
  | none ↦ t
  | some cmd ↦ elim (read_u32_le file (off + 4)) [
    | none ↦ t
    | some cmdsize ↦ elim (cmdsize == 0) [
      | true ↦ t
      | false ↦ scan_commands n file (off + cmdsize) (command file cmd off t)
    ]
  ]
]

-- The bytes up to the first 0, none if there is no 0, without a leading underscore.
unfoldable pub symbol_name : List ℕ → Text
symbol_name bytes =
    let raw = take (unwrap_or (position_from 0 (λ b. b == 0) bytes) 0) bytes in
    unwrap_or (strip_prefix (codes "_") raw) raw

unfoldable pub contains : List Text → Text → Bool
contains [] name = false
contains (w ∷ ws) name = text_eq w name || contains ws name

unfoldable pub insert_stub : Text → ℕ → List (Text × ℕ) → List (Text × ℕ)
insert_stub name addr [] = (name, addr) ∷ []
insert_stub name addr (entry ∷ rest) =
    if text_eq entry.0 name then (name, addr) ∷ rest else entry ∷ insert_stub name addr rest

-- The stub with the number `i`, whose symbol has the index `sym`.
unfoldable pub stub : List ℕ → List Text → Tables → ℕ → ℕ → List (Text × ℕ) → List (Text × ℕ)
stub file want t i sym result =
    if leb t.nsyms sym then result else (elim (read_u32_le file (t.symoff + sym * 16)) [
      | none ↦ result
      | some n_strx ↦
          let name = symbol_name (drop (t.stroff + n_strx) file) in
          if leb (length file) (t.stroff + n_strx)
          then result
          else (if contains want name
              then insert_stub name ((t.stubs_addr + i * t.stubs_entry_size) % 2 ^ 64) result
              else result)
    ])

unfoldable pub scan_stubs : ℕ → List ℕ → List Text → Tables → ℕ → List (Text × ℕ) → List (Text × ℕ)
scan_stubs zero file want t i result = result
scan_stubs (suc n) file want t i result =
    elim (read_u32_le file (t.indirectsymoff + (t.stubs_indirect_start + i) * 4)) [
      | none ↦ result
      | some sym ↦ scan_stubs n file want t (suc i) (stub file want t i sym result)
    ]

abbrev pub is_incomplete : Tables → Bool
is_incomplete t =
    t.stubs_addr == 0 || (t.stubs_entry_size == 0 || (t.indirectsymoff == 0 || t.nsyms == 0))

abbrev pub is_macho64 : Option ℕ → Bool
is_macho64 none = false
is_macho64 (some magic) = magic == 0xfeedfacf

unfoldable pub parse_thin_macho64 : List ℕ → List Text → List (Text × ℕ)
parse_thin_macho64 file want =
    if is_macho64 (read_u32_le file 0)
    then (elim (read_u32_le file 16) [
      | none ↦ []
      | some ncmds ↦
          let t = scan_commands ncmds file 32 no_tables in
          if is_incomplete t
          then []
          else scan_stubs (t.stubs_size / t.stubs_entry_size) file want t 0 []
    ])
    else []

unfoldable pub find_stubs : List ℕ → List Text → List (Text × ℕ)
find_stubs file want = parse_thin_macho64 (get_thin_slice file) want
