-- ===== src/Session/Print/Source/Window.antt =====
-- The lines that `list_source` of src/main.rs shows.
use macos_c_debugger_rust.Base.{
  ℕ, zero, suc, false, List, [], ◌∷◌, some, ◌==◌, ◌+◌, ◌-◌, ◌<◌, ◌≤◌, ltb, ◌||◌, ◌≡◌, refl, arith,
  inl, inr, leb, Bool-cases, length, take, drop, get_elem?,
}
use macos_c_debugger_rust.Base.Text.{Text}
use macos_c_debugger_rust.Base.Text.Format.{decimal, lines}
use macos_c_debugger_rust.Io.{ok}
use macos_c_debugger_rust.Session.Print.{place}
use macos_c_debugger_rust.Session.Print.Source.{
  Files, row_text, rows, first_line, last_line, list_source,
}

-- Lines with their numbers from `n` on.
unfoldable pub numbered_lines : ℕ → ℕ → ℕ → List Text → List Text
numbered_lines width cur n [] = []
numbered_lines width cur n (line ∷ rest) =
    row_text width cur n line ∷ numbered_lines width cur (suc n) rest

-- The lines from one number to another.
unfoldable pub window : ℕ → ℕ → List Text → List Text
window first last all = take (suc last - first) (drop (first - 1) all)

get_elem?-drop :
    (all : List Text) (i : ℕ)
    → i < length all
    → (line : Text) × (get_elem? all i ≡ some line) × (drop i all ≡ line ∷ drop (suc i) all)
get_elem?-drop [] i h = absurd (omega arith)
get_elem?-drop (x ∷ xs) zero h = (x, refl, refl)
get_elem?-drop (x ∷ xs) (suc i) h = get_elem?-drop xs i (omega arith)

rows-numbered_lines :
    (width cur n count : ℕ) (all : List Text)
    → n + count ≤ length all
    → rows width cur (suc n) count all
      ≡ ok (numbered_lines width cur (suc n) (take count (drop n all)))
unfolding rows numbered_lines
rows-numbered_lines width cur n zero all h = refl
rows-numbered_lines width cur n (suc count) all h =
    let found = get_elem?-drop all n (omega arith) in
    let rest = rows-numbered_lines width cur (suc n) count all (omega arith) in
    let m : suc n - 1 ≡ n = omega arith in rw (rows, m, found.1, found.2, rest) refl

rows-window :
    (width cur first last : ℕ) (all : List Text)
    → 0 < first
    → last ≤ length all
    → rows width cur first (suc last - first) all
      ≡ ok (numbered_lines width cur first (window first last all))
unfolding window rows numbered_lines
rows-window width cur zero last all h l = absurd (omega arith)
rows-window width cur (suc n) last all h l = elim (Bool-cases (leb n last)) [
  | inl e ↦
      let m : suc n - 1 ≡ n = omega arith in
      rw m (rows-numbered_lines width cur n (suc last - suc n) all (ground (arith, e)))
  | inr e ↦ (let z : suc last - suc n ≡ 0 = ground (arith, e) in rw z refl)
]

-- For a line of a file that can be read, list_source indexes no line outside the file and shows,
-- behind the place, the file's lines from context lines before that line to context lines behind
-- it, cut at the file's ends, each with its number.
pub list_source-window :
    (files : Files) (path text : Text) (line context : ℕ)
    → files path ≡ some text
    → 0 < line
    → line ≤ length (lines text)
    → let first = first_line line context in
      let last = last_line line context (length (lines text)) in
      list_source files path line context
      ≡ ok (
          some (
            place (path, line)
            ∷ numbered_lines (length (decimal last)) line first (window first last (lines text))))
unfolding list_source window
list_source-window files path text line context e h l =
    let all = lines text in
    let last = last_line line context (length all) in
    let k : ((line == 0) || ltb (length all) line) ≡ false = ground arith in
    rw
      (
        e,
        list_source,
        k,
        rows-window (length (decimal last)) line (first_line line context) last all (omega arith)
            (omega arith),
      )
      refl
