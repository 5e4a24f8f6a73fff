-- ===== src/Base/Texts.antt =====
-- Texts by the codes of their characters.
use Prim.Native.Nat.{ℕ, ◌-◌}
use Prim.Native.Char.{code}
use Prim.Native.String.{String}
use mathlib.Core.List.{List, [], ◌∷◌}
use mathlib.Core.Bool.{◌&&◌}
use oqs_provider.Base.Tests.{leb, if◌then◌else◌}

abbrev pub codes : String → List ℕ
codes String.[] = []
codes (String.◌∷◌ c s) = code c ∷ codes s

-- A lower case letter in upper case.
abbrev pub upper : ℕ → ℕ
upper c = if leb 97 c && leb c 122 then c - 32 else c

abbrev pub uppers : List ℕ → List ℕ
uppers [] = []
uppers (c ∷ cs) = upper c ∷ uppers cs
