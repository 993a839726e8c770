-- ===== src/Prelude/Text.antt =====
-- Text literals as the bytes that the program's strings hold.
use Prim.Native.Nat.{ℕ}
use Prim.Native.String.{String}
use Prim.Native.Char.{code}
use mathlib.Core.List.{List, [], ◌∷◌, ◌++◌}

-- The bytes of an ASCII text, without the terminating zero.
abbrev pub codes : String → List ℕ
codes String.[] = []
codes (String.◌∷◌ c s) = code c ∷ codes s

-- The texts behind each other.
abbrev pub concat : List (List ℕ) → List ℕ
concat [] = []
concat (text ∷ rest) = text ++ concat rest
