-- ===== src/Symbols/Dwarf/Integers.antt =====
-- `isize` as an integer, for the depths of nested entries (src/symbols.rs), which stay far from its
-- bounds.
use macos_c_debugger_rust.Base.{ℕ, suc, Bool, true, false, ◌≡◌, ◌+◌, ◌-◌, leb, if◌then◌else◌, arith}

pub data ℤ : Type 0 where
  pos negsuc : ℕ → ℤ

-- The difference of two natural numbers.
unfoldable pub sub_nat : ℕ → ℕ → ℤ
sub_nat m n = if leb n m then pos (m - n) else negsuc (n - suc m)

infixl 30 ◌+ℤ◌
unfoldable pub ◌+ℤ◌ : ℤ → ℤ → ℤ
unfolding sub_nat
pos m +ℤ pos n = pos (m + n)
pos m +ℤ negsuc n = sub_nat m (suc n)
negsuc m +ℤ pos n = sub_nat n (suc m)
negsuc m +ℤ negsuc n = negsuc (suc (m + n))

-- `a >= b`.
unfoldable pub geb : ℤ → ℤ → Bool
geb (pos m) (pos n) = leb n m
geb (pos m) (negsuc n) = true
geb (negsuc m) (pos n) = false
geb (negsuc m) (negsuc n) = leb m n

pub add-sub_nat : (m n : ℕ) → pos m +ℤ sub_nat n m ≡ pos n
unfolding ◌+ℤ◌ sub_nat
add-sub_nat m n = ground arith
