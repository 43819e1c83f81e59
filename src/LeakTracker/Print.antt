-- ===== src/LeakTracker/Print.antt =====
-- `show_leaks` of src/leak_tracker.rs: the live allocations in the order of their addresses.
use macos_c_debugger_rust.Base.{
  ℕ, List, [], ◌∷◌, ◌++◌, Option, none, some, if◌then◌else◌, ◌==◌, leb, length, unwrap_or, ◌>>=?◌,
  map,
}
use macos_c_debugger_rust.Base.Text.{Text, codes, file_name}
use macos_c_debugger_rust.Base.Text.Format.{hex, decimal, pad_right}
use macos_c_debugger_rust.Symbols.{Symbols, slide, find_location}
use macos_c_debugger_rust.Session.Variables.{minus}
use macos_c_debugger_rust.LeakTracker.{LeakTracker, AllocInfo}

unfoldable pub insert_entry : ℕ × AllocInfo → List (ℕ × AllocInfo) → List (ℕ × AllocInfo)
insert_entry e [] = e ∷ []
insert_entry e (x ∷ xs) = if leb e.0 x.0 then e ∷ x ∷ xs else x ∷ insert_entry e xs

-- `sort_by_key` on the address.
unfoldable pub sort_entries : List (ℕ × AllocInfo) → List (ℕ × AllocInfo)
unfolding insert_entry
sort_entries [] = []
sort_entries (e ∷ es) = insert_entry e (sort_entries es)

-- The call's line, which the return address less 1 lies in.
abbrev pub call_location : Option Symbols → Option ℕ → AllocInfo → Option (Text × ℕ)
call_location syms base info =
    syms >>=? λ s. base >>=? λ b. find_location s (minus (minus info.call_site (slide s b)) 1)

unfoldable pub leak_line : Option Symbols → Option ℕ → ℕ × AllocInfo → Text
leak_line syms base e =
    codes "  "
    ++ hex 18 e.0
    ++ codes "  size="
    ++ pad_right 6 (decimal e.1.size)
    ++ codes "  caller="
    ++ hex 18 e.1.call_site
    ++ elim (call_location syms base e.1) [
      | none ↦ []
      | some at ↦
          codes "  (" ++ unwrap_or (file_name at.0) at.0 ++ codes ":" ++ decimal at.1 ++ codes ")"
    ]

unfoldable pub show_leaks : Option Symbols → Option ℕ → LeakTracker → List Text
unfolding sort_entries leak_line
show_leaks syms base t =
    if length t.live == 0
    then codes "No leaks detected." ∷ []
    else (decimal (length t.live) ++ codes " live allocation(s) (possible leaks):")
      ∷ map (leak_line syms base) (sort_entries t.live)
