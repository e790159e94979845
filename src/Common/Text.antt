-- ===== src/Common/Text.antt =====
-- Texts as lists of character codes: lower case and the `in` test.
use matrades.Common.Tests.{leb, nat_beq, if◌then◌else◌}
use Prim.Native.Nat.{ℕ, ◌+◌}
use mathlib.Core.Bool.{Bool, true, false, ◌&&◌, ◌||◌}
use mathlib.Core.List.{List, [], ◌∷◌, map}
use Prim.Native.Char.{code}
use Prim.Native.String.{String}

abbrev pub codes : String → List ℕ
codes String.[] = []
codes (String.◌∷◌ c s) = code c ∷ codes s

-- `text.lower()` on ASCII.
unfoldable pub lower : List ℕ → List ℕ
lower = map (λ c. if leb b'A' c && leb c b'Z' then c + 32 else c)

abbrev pub starts_with : List ℕ → List ℕ → Bool
starts_with [] text = true
starts_with (p ∷ ps) [] = false
starts_with (p ∷ ps) (c ∷ cs) = nat_beq p c && starts_with ps cs

-- `fragment in text`
unfoldable pub contains : List ℕ → List ℕ → Bool
contains fragment [] = starts_with fragment []
contains fragment (c ∷ cs) = starts_with fragment (c ∷ cs) || contains fragment cs
