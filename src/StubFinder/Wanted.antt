-- ===== src/StubFinder/Wanted.antt =====
-- What `find_stubs` of src/stub_finder.rs can return.
use macos_c_debugger_rust.Base.{
  ℕ, zero, suc, true, false, List, [], ◌∷◌, none, some, ◌+◌, ◌*◌, ◌/◌, ◌%◌, ◌^◌, ◌<◌, ◌≤◌, ◌≡◌,
  refl, arith, leb, length, drop, Bool-cases, Option-cases, inl, inr,
}
use macos_c_debugger_rust.Base.Text.{Text, text_eq}
use macos_c_debugger_rust.StubFinder.{
  Tables, contains, insert_stub, stub, scan_stubs, read_u32_le, symbol_name, scan_commands,
  no_tables, parse_thin_macho64, find_stubs, get_thin_slice, is_incomplete, is_macho64,
}

-- Every entry has a wanted name and the address of a stub of the section.
pub record IsStub (want : List Text) (t : Tables) (entry : Text × ℕ) : Type 0 where
  pub wanted : contains want entry.0 ≡ true
  pub index : ℕ
  pub inside : index < t.stubs_size / t.stubs_entry_size
  pub address : entry.1 ≡ (t.stubs_addr + index * t.stubs_entry_size) % 2 ^ 64

abbrev pub AllStubs : List Text → Tables → List (Text × ℕ) → Type 0
AllStubs want t [] = Unit {0}
AllStubs want t (entry ∷ rest) = IsStub want t entry × AllStubs want t rest

-- The tables that the load commands of the file give.
abbrev pub tables_of : List ℕ → Tables
tables_of file = elim (read_u32_le file 16) [
  | none ↦ no_tables
  | some ncmds ↦ scan_commands ncmds file 32 no_tables
]

module _ (file : List ℕ) (want : List Text) (t : Tables) where
  insert_stub-AllStubs :
      (name : Text) (addr : ℕ) (result : List (Text × ℕ))
      → IsStub want t (name, addr)
      → AllStubs want t result
      → AllStubs want t (insert_stub name addr result)
  unfolding insert_stub
  insert_stub-AllStubs name addr [] h all = (h, tt)
  insert_stub-AllStubs name addr (entry ∷ rest) h all = elim (Bool-cases (text_eq entry.0 name)) [
    | inl e ↦ rw e (h, all.1)
    | inr e ↦ rw e (all.0, insert_stub-AllStubs name addr rest h all.1)
  ]

  stub-AllStubs :
      (i sym : ℕ) (result : List (Text × ℕ))
      → i < t.stubs_size / t.stubs_entry_size
      → AllStubs want t result
      → AllStubs want t (stub file want t i sym result)
  unfolding stub
  stub-AllStubs i sym result h all = elim (Bool-cases (leb t.nsyms sym)) [
    | inl e ↦ rw (stub, e) all
    | inr e ↦ elim (Option-cases (read_u32_le file (t.symoff + sym * 16))) [
      | inl f ↦ rw (stub, e, f) all
      | inr (n_strx, f) ↦ elim (Bool-cases (leb (length file) (t.stroff + n_strx))) [
        | inl g ↦ rw (stub, e, f, g) all
        | inr g ↦
            let name = symbol_name (drop (t.stroff + n_strx) file) in
            elim (Bool-cases (contains want name)) [
              | inl w ↦
                  rw (stub, e, f, g, w)
                    (insert_stub-AllStubs name _ result
                      (record { wanted = w; index = i; inside = h; address = refl }) all)
              | inr w ↦ rw (stub, e, f, g, w) all
            ]
      ]
    ]
  ]

  scan_stubs-AllStubs :
      (n i : ℕ) (result : List (Text × ℕ))
      → n + i ≤ t.stubs_size / t.stubs_entry_size
      → AllStubs want t result
      → AllStubs want t (scan_stubs n file want t i result)
  unfolding scan_stubs
  scan_stubs-AllStubs zero i result h all = all
  scan_stubs-AllStubs (suc n) i result h all =
      elim (Option-cases (read_u32_le file (t.indirectsymoff + (t.stubs_indirect_start + i) * 4))) [
        | inl e ↦ rw (scan_stubs, e) all
        | inr (sym, e) ↦
            rw (scan_stubs, e)
              (scan_stubs-AllStubs n (suc i) _ (omega arith)
                (stub-AllStubs i sym result (omega arith) all))
      ]

tables_of-some :
    (file : List ℕ) (n : ℕ)
    → read_u32_le file 16 ≡ some n
    → tables_of file ≡ scan_commands n file 32 no_tables
tables_of-some file n e = rw (tables_of, e) refl

found-eq :
    (file : List ℕ) (want : List Text) (n : ℕ)
    → let thin = get_thin_slice file in
      is_macho64 (read_u32_le thin 0) ≡ true
      → read_u32_le thin 16 ≡ some n
      → is_incomplete (scan_commands n thin 32 no_tables) ≡ false
      → let t = scan_commands n thin 32 no_tables in
        find_stubs file want ≡ scan_stubs (t.stubs_size / t.stubs_entry_size) thin want t 0 []
unfolding find_stubs parse_thin_macho64
found-eq file want n e f g = rw (find_stubs, parse_thin_macho64, e, f, g)

-- Every entry that find_stubs returns has a wanted name and the address of a stub whose number lies
-- inside the section of stubs that the load commands of the chosen slice describe.
pub find_stubs-AllStubs :
    (file : List ℕ) (want : List Text)
    → AllStubs want (tables_of (get_thin_slice file)) (find_stubs file want)
unfolding find_stubs parse_thin_macho64
find_stubs-AllStubs file want =
    let thin = get_thin_slice file in
    elim (Bool-cases (is_macho64 (read_u32_le thin 0))) [
      | inr e ↦ rw (find_stubs, parse_thin_macho64, e) tt
      | inl e ↦ elim (Option-cases (read_u32_le thin 16)) [
        | inl f ↦ rw (find_stubs, parse_thin_macho64, e, f) tt
        | inr (n, f) ↦
            let t = scan_commands n thin 32 no_tables in
            elim (Bool-cases (is_incomplete t)) [
              | inl g ↦ rw (find_stubs, parse_thin_macho64, e, f, g) tt
              | inr g ↦
                  rw (found-eq file want n e f g, tables_of-some thin n f)
                    (scan_stubs-AllStubs thin want t (t.stubs_size / t.stubs_entry_size) 0 []
                      (omega arith) tt)
            ]
      ]
    ]
