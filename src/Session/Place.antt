-- ===== src/Session/Place.antt =====
-- `parse_addr`, `resolve_location`, `is_identifier`, `resolve_list_target` of src/main.rs: what the
-- user writes for an address or a line. Letters and digits are those of ASCII.
use macos_c_debugger_rust.Base.{
  ℕ, Bool, true, false, [], ◌∷◌, Option, none, some, if◌then◌else◌, ◌+◌, ◌%◌, ◌^◌, leb, ◌&&◌, ◌||◌,
  ◌==◌, ◌>>=?◌,
}
use macos_c_debugger_rust.Base.Text.{Text, codes, strip_prefix, from_str_radix, rsplit_once}
use macos_c_debugger_rust.Symbols.{
  Symbols, find_line, find_symbol, find_location, skip_prologue, slide,
}

-- The messages.
pub data Refusal : Type 0 where
  no_symbols no_line no_base no_file no_symbol bad_line no_source : Refusal

pub data Resolved (A : Type 0) : Type 0 where
  resolved : A → Resolved A
  refused : Refusal → Resolved A

module _ {A B : Type 0} where
  -- `ok_or(..)?` and what follows.
  abbrev pub need : Option A → Refusal → (A → Resolved B) → Resolved B
  need none e f = refused e
  need (some a) e f = f a

abbrev pub number : Text → Option ℕ
number s = elim (strip_prefix (codes "0x") s) [
  | some hex ↦ from_str_radix (2 ^ 64) 16 hex
  | none ↦ from_str_radix (2 ^ 64) 10 s
]

unfoldable pub parse_addr : Text → Option ℕ → Option ℕ
parse_addr s base = elim (strip_prefix (codes "base+") s) [
  | some rest ↦ number rest >>=? λ offset. base >>=? λ b. some ((b + offset) % 2 ^ 64)
  | none ↦ number s
]

-- `rsplit_once(':')` and the line behind it.
abbrev pub file_line : Text → Option (Text × ℕ)
file_line arg =
    rsplit_once b':' arg >>=? λ p. from_str_radix (2 ^ 32) 10 p.1 >>=? λ line. some (p.0, line)

abbrev pub at_runtime : Symbols → ℕ → ℕ → ℕ
at_runtime syms base vaddr = (vaddr + slide syms base) % 2 ^ 64

unfoldable pub line_address : Option ℕ → Option Symbols → Text → ℕ → Resolved ℕ
line_address base syms file line = need syms no_symbols (λ syms.
    need (find_line syms file line) no_line
      (λ vaddr. need base no_base (λ base. resolved (at_runtime syms base vaddr))))

-- A line of the current file.
unfoldable pub current_file_address : Option ℕ → Option Symbols → Option Text → ℕ → Resolved ℕ
unfolding line_address
current_file_address base syms file line =
    need syms no_symbols (λ _. need file no_file (λ file. line_address base syms file line))

unfoldable pub symbol_address : Option ℕ → Option Symbols → Text → Resolved ℕ
symbol_address base syms name = need syms no_symbols (λ syms.
    need (find_symbol syms name) no_symbol (λ vaddr.
      need base no_base (λ base. resolved (at_runtime syms base (skip_prologue syms vaddr)))))

unfoldable pub resolve_location : Text → Option ℕ → Option Symbols → Option Text → Resolved ℕ
unfolding line_address current_file_address parse_addr symbol_address
resolve_location arg base syms current_file = elim (file_line arg) [
  | some p ↦ line_address base syms p.0 p.1
  | none ↦ elim (from_str_radix (2 ^ 32) 10 arg) [
    | some line ↦ current_file_address base syms current_file line
    | none ↦ elim (parse_addr arg base) [
      | some addr ↦ resolved addr
      | none ↦ symbol_address base syms arg
    ]
  ]
]

unfoldable pub is_alphabetic : ℕ → Bool
is_alphabetic c = (leb b'a' c && leb c b'z') || (leb b'A' c && leb c b'Z')

is_word : ℕ → Bool
unfolding is_alphabetic
is_word c = is_alphabetic c || (leb b'0' c && leb c b'9') || (c == b'_')

all_word : Text → Bool
unfolding is_word
all_word [] = true
all_word (c ∷ cs) = is_word c && all_word cs

-- `chars().all(..)` of the name behind `$`, and `is_identifier`.
unfoldable pub is_word_text : Text → Bool
unfolding all_word
is_word_text s = all_word s

unfoldable pub is_identifier : Text → Bool
unfolding is_word_text is_alphabetic
is_identifier [] = false
is_identifier (c ∷ cs) = (is_alphabetic c || (c == b'_')) && is_word_text cs

-- The line in the file that the debug information names, or in a file of that name.
unfoldable pub listed_line : (Text → Bool) → Option Symbols → Text → ℕ → Resolved (Text × ℕ)
listed_line exists none file line = refused no_source
listed_line exists (some syms) file line =
    elim (find_line syms file line >>=? λ vaddr. find_location syms vaddr) [
      | some at ↦ resolved (at.0, line)
      | none ↦ if exists file then resolved (file, line) else refused no_source
    ]

-- `exists` says whether the file system has a file of the name.
unfoldable pub resolve_list_target :
    (Text → Bool) → Text → Option Text → Option Symbols → Resolved (Text × ℕ)
unfolding listed_line
resolve_list_target exists arg current_file syms = elim (rsplit_once b':' arg) [
  | some p ↦
      need (from_str_radix (2 ^ 32) 10 p.1) bad_line (λ line. listed_line exists syms p.0 line)
  | none ↦ elim (from_str_radix (2 ^ 32) 10 arg) [
    | some line ↦ need current_file no_file (λ file. resolved (file, line))
    | none ↦ need syms no_symbols (λ syms.
        need (find_symbol syms arg) no_symbol
          (λ vaddr. need (find_location syms vaddr) no_source resolved))
  ]
]
