-- ===== src/Base/Ascii.antt =====
-- The bytes of the texts that the sources compare or hash.
use Prim.Native.Char.{code}
use Prim.Native.Nat.{ℕ}
use Prim.Native.String.{String, [], ◌∷◌}
use mathlib.Core.List.{List, [] as []ᴸ, ◌∷◌ as ◌∷ᴸ◌}

-- The bytes of a text of ASCII characters.
unfoldable pub ascii : String → List ℕ
ascii [] = []ᴸ
ascii (c ∷ s) = code c ∷ᴸ ascii s
