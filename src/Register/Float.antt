-- ===== src/Register/Float.antt =====
-- src/register.rs: FloatState64 of x86_64, without its reserved fields, and ArmNeonState64. A register
-- of 16 bytes is a list, least byte first. A number behind a prefix is a `usize`.
use macos_c_debugger_rust.Base.{
  ℕ, List, [], ◌∷◌, ◌++◌, Option, none, some, if◌then◌else◌, leb, ◌%◌, ◌^◌, get_elem?,
  set as set_elem, replicate, drop, ◌>>=?◌,
}
use macos_c_debugger_rust.Base.Bytes.{to_le}
use macos_c_debugger_rust.Base.Text.{Text, codes, lowercase, text_eq, strip_prefix, from_str_radix}

pub record FloatState64 : Type 0 where
  pub fcw : ℕ
  pub fsw : ℕ
  pub ftw : ℕ
  pub fop : ℕ
  pub ip : ℕ
  pub cs : ℕ
  pub dp : ℕ
  pub ds : ℕ
  pub mxcsr : ℕ
  pub mxcsrmask : ℕ
  pub stmm : List (List ℕ)
  pub xmm : List (List ℕ)

abbrev pub index : Text → Option ℕ
index rest = from_str_radix (2 ^ 64) 10 rest

-- The low 8 bytes set and the others cleared.
abbrev pub cleared : ℕ → List ℕ
cleared v = to_le 8 v ++ replicate 8 0

-- The number of `st0` or of `mm0`, which is the same register.
unfoldable pub st_index : Text → Option ℕ
st_index name = elim (strip_prefix (codes "st") name) [
  | some rest ↦ index rest
  | none ↦ strip_prefix (codes "mm") name >>=? index
]

unfoldable pub set_control : FloatState64 → Text → ℕ → Option FloatState64
set_control s name v =
    if text_eq name (codes "mxcsr")
    then some (record s { mxcsr = v % 2 ^ 32 })
    else (if text_eq name (codes "fcw")
        then some (record s { fcw = v % 2 ^ 16 })
        else (if text_eq name (codes "fsw") then some (record s { fsw = v % 2 ^ 16 }) else none))

unfoldable pub set_xmm : FloatState64 → Text → ℕ → Option FloatState64
unfolding set_control
set_xmm s name v = elim (strip_prefix (codes "xmm") name) [
  | some rest ↦ index rest >>=? λ n.
      if leb 16 n then none else some (record s { xmm = set_elem s.xmm n (cleared v) })
  | none ↦ set_control s name v
]

unfoldable pub set : FloatState64 → Text → ℕ → Option FloatState64
unfolding st_index set_xmm
set s text v =
    let name = lowercase text in
    elim (st_index name) [
      | some n ↦ if leb 8 n then none else some (record s { stmm = set_elem s.stmm n (cleared v) })
      | none ↦ set_xmm s name v
    ]

pub record ArmNeonState64 : Type 0 where
  pub v : List (List ℕ)
  pub fpsr : ℕ
  pub fpcr : ℕ

-- The bytes that a prefix writes; those of `v` and `q` clear the others.
abbrev pub written : ℕ → ℕ → List ℕ → List ℕ
written n v old = to_le n v ++ drop n old

unfoldable pub neon_width : ℕ → Option (ℕ → List ℕ → List ℕ)
neon_width c =
    if text_eq (c ∷ []) (codes "v")
    then some (λ v old. cleared v)
    else (if text_eq (c ∷ []) (codes "q")
        then some (λ v old. cleared v)
        else (if text_eq (c ∷ []) (codes "d")
            then some (written 8)
            else (if text_eq (c ∷ []) (codes "s")
                then some (written 4)
                else (if text_eq (c ∷ []) (codes "h")
                    then some (written 2)
                    else (if text_eq (c ∷ []) (codes "b") then some (written 1) else none)))))

unfoldable pub set_status : ArmNeonState64 → Text → ℕ → Option ArmNeonState64
set_status s name value =
    if text_eq name (codes "fpsr")
    then some (record s { fpsr = value % 2 ^ 32 })
    else (if text_eq name (codes "fpcr") then some (record s { fpcr = value % 2 ^ 32 }) else none)

unfoldable pub set_vector : ArmNeonState64 → (ℕ → List ℕ → List ℕ) → ℕ → ℕ → Option ArmNeonState64
set_vector s write n value =
    if leb 32 n
    then none
    else (get_elem? s.v n >>=? λ old. some (record s { v = set_elem s.v n (write value old) }))

unfoldable pub neon_set : ArmNeonState64 → Text → ℕ → Option ArmNeonState64
unfolding neon_width set_status set_vector
neon_set s text value = elim (lowercase text) [
  | [] ↦ none
  | c ∷ rest ↦ elim (neon_width c) [
    | none ↦ set_status s (c ∷ rest) value
    | some write ↦ index rest >>=? λ n. set_vector s write n value
  ]
]
