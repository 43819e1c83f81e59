-- ===== src/Base/Bytes.antt =====
-- Byte strings: little and big endian numbers (`from_le_bytes`, `to_le_bytes`, `from_be_bytes`)
-- and the checked slice `data.get(a..b)`.
use Prim.Native.Nat.{ℕ, zero, suc, ◌+◌, ◌-◌, ◌*◌, ◌/◌, ◌%◌, ◌^◌, ◌≤◌, ◌<◌}
use mathlib.Core.Path.{◌≡◌, refl, ap}
use mathlib.Core.List.{List, [], ◌∷◌}
use mathlib.Core.Option.{Option, none, some}
use native.Mathlib.Nat.{pow-suc}
use native.Mathlib.Omega.{arith}
use macos_c_debugger_rust.Base.Tests.{leb, if◌then◌else◌}
use macos_c_debugger_rust.Base.Lists.{length, take, drop, length-take, length-drop}

-- The number that bytes stand for, least byte first.
unfoldable pub from_le : List ℕ → ℕ
from_le [] = 0
from_le (b ∷ bs) = b + 256 * from_le bs

-- The `n` low bytes of a number, least byte first.
unfoldable pub to_le : ℕ → ℕ → List ℕ
to_le zero v = []
to_le (suc n) v = (v % 256) ∷ to_le n (v / 256)

from_be_acc : ℕ → List ℕ → ℕ
from_be_acc acc [] = acc
from_be_acc acc (b ∷ bs) = from_be_acc (acc * 256 + b) bs

-- Most significant byte first.
unfoldable pub from_be : List ℕ → ℕ
unfolding from_be_acc
from_be bs = from_be_acc 0 bs

-- `data.get(lo..hi)`: none if `lo > hi` or `hi` is past the end.
unfoldable pub slice : List ℕ → ℕ → ℕ → Option (List ℕ)
slice bytes lo hi =
    if leb lo hi
    then (if leb hi (length bytes) then some (take (hi - lo) (drop lo bytes)) else none)
    else none

abbrev pub AllBytes : List ℕ → Type 0
AllBytes [] = Unit {0}
AllBytes (b ∷ bs) = (b < 256) × AllBytes bs

pub length-to_le : (n v : ℕ) → length (to_le n v) ≡ n
unfolding to_le
length-to_le zero v = refl
length-to_le (suc n) v = ap suc (length-to_le n (v / 256))

pub from_le-to_le : (n v : ℕ) → v < 256 ^ n → from_le (to_le n v) ≡ v
unfolding from_le to_le
from_le-to_le zero v h = omega arith
from_le-to_le (suc n) v h = omega (arith, from_le-to_le n (v / 256) (omega (arith, pow-suc 256 n)))

pub from_le-lt : (bs : List ℕ) → AllBytes bs → from_le bs < 256 ^ length bs
unfolding from_le
from_le-lt [] h = omega arith
from_le-lt (b ∷ bs) h = omega (arith, from_le-lt bs h.1, pow-suc 256 (length bs), h.0)

pub length-slice :
    (bytes : List ℕ) (lo hi : ℕ) (s : List ℕ)
    → slice bytes lo hi ≡ some s
    → (length s ≡ hi - lo) × (hi ≤ length bytes)
unfolding slice
length-slice bytes lo hi s h =
    ground (arith, length-take (hi - lo) (drop lo bytes), length-drop lo bytes)
