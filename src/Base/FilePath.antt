-- ===== src/Base/FilePath.antt =====
-- What the sources use of `std::string::rfind` and `std::filesystem::path`, on paths without repeated
-- slashes.
use Prim.Native.Nat.{ℕ, zero, suc}
use mathlib.Core.List.{List, [], ◌∷◌}
use mathlib.Core.Option.{Option, none, some}
use prodosfs.Base.Tests.{◌==◌, if◌then◌else◌}
use prodosfs.Base.Lists.{take, drop, bytes_eq}

-- The position of the last such byte.
abbrev pub rfind : ℕ → List ℕ → Option ℕ
rfind c [] = none
rfind c (x ∷ xs) = elim (rfind c xs) [
  | some i ↦ some (suc i)
  | none ↦ if x == c then some 0 else none
]

unfoldable pub filename : List ℕ → List ℕ
filename path = elim (rfind b'/' path) [ none ↦ path | some i ↦ drop (suc i) path ]

unfoldable pub parent_path : List ℕ → List ℕ
parent_path path = elim (rfind b'/' path) [
  | none ↦ []
  | some zero ↦ b'/' ∷ []
  | some (suc i) ↦ take (suc i) path
]

-- The name up to its last dot, unless that is its first byte.
unfoldable pub stem : List ℕ → List ℕ
unfolding filename
stem path = elim (rfind b'.' (filename path)) [
  | none ↦ filename path
  | some zero ↦ filename path
  | some (suc i) ↦
      if bytes_eq (filename path) (b'.' ∷ b'.' ∷ [])
      then filename path
      else take (suc i) (filename path)
]
