-- ===== src/StubFinder/Fat.antt =====
-- The fat headers of src/stub_finder.rs.
use macos_c_debugger_rust.Base.{
  ℕ, zero, suc, Bool, true, false, List, [], ◌∷◌, some, ◌==◌, if◌then◌else◌, ◌+◌, ◌≤◌, ◌≡◌, ◌≢◌,
  refl, arith, length, take,
}
use macos_c_debugger_rust.Base.Bytes.{AllBytes, from_be, from_le, slice}
use macos_c_debugger_rust.Base.Text.{Text}
use macos_c_debugger_rust.StubFinder.{
  read_u32_be, read_u32_le, scan_archs, get_thin_slice, parse_thin_macho64, find_stubs, is_fat,
  target_cputype_be, is_macho64,
}

-- The numbers of the processors in the header, none the one that the finder looks for.
abbrev pub NoTarget : ℕ → List ℕ → Bool → ℕ → Type 0
NoTarget zero file is_fat64 off = Unit {0}
NoTarget (suc n) file is_fat64 off =
    (read_u32_be file off ≢ some target_cputype_be)
    × NoTarget n file is_fat64 (off + (if is_fat64 then 32 else 20))

scan_archs-none :
    (n : ℕ) (file : List ℕ) (is_fat64 : Bool) (off : ℕ)
    → NoTarget n file is_fat64 off
    → scan_archs n file is_fat64 off ≡ file
unfolding scan_archs
scan_archs-none zero file b off h = refl
scan_archs-none (suc n) file b off h =
    ground (arith, h.0, scan_archs-none n file b (off + (if b then 32 else 20)) h.1)

-- The magic number of a fat file is none of a thin one.
fat-is_macho64 :
    (file : List ℕ)
    → AllBytes file
    → 8 ≤ length file
    → is_fat (from_be (take 4 file)) ≡ true
    → is_macho64 (read_u32_le file 0) ≡ false
unfolding read_u32_le slice from_be from_le
fat-is_macho64 [] h l e = absurd (omega arith)
fat-is_macho64 (a ∷ []) h l e = absurd (omega arith)
fat-is_macho64 (a ∷ b ∷ []) h l e = absurd (omega arith)
fat-is_macho64 (a ∷ b ∷ c ∷ []) h l e = absurd (omega arith)
fat-is_macho64 (a ∷ b ∷ c ∷ d ∷ rest) h l e = ground (arith, h.0, h.1.0, h.1.1.0, h.1.1.1.0, e)

-- In a fat file of bytes none of whose entries has the processor number 0x07010000, find_stubs
-- finds nothing.
pub find_stubs-NoTarget :
    (file : List ℕ) (want : List Text) (n : ℕ)
    → AllBytes file
    → 8 ≤ length file
    → is_fat (from_be (take 4 file)) ≡ true
    → read_u32_be file 4 ≡ some n
    → NoTarget n file (from_be (take 4 file) == 0xcafebabf) 8
    → find_stubs file want ≡ []
unfolding find_stubs get_thin_slice parse_thin_macho64
find_stubs-NoTarget file want n h l e f g =
    let magic = from_be (take 4 file) in
    ground
      (arith, fat-is_macho64 file h l e, e, f, scan_archs-none n file (magic == 0xcafebabf) 8 g)
