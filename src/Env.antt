-- ===== src/Env.antt =====
-- The environment that the provider is patched from, oqsprov/oqsprov.c and oqsprov/oqsprov_capabilities.c: a
-- variable, by the codes of its name, has a value or not.
pub mod Modify
use Prim.Native.String.{String}
use oqs_provider.Base.{
  ℕ, zero, suc, ◌+◌, ◌-◌, ◌*◌, ◌%◌, ◌^◌, ◌==◌, Bool, true, false, ◌&&◌, ◌||◌, Option, none, some,
  List, [], ◌∷◌, leb, if◌then◌else◌, codes,
}

abbrev pub GetEnv : Type 0
GetEnv = List ℕ → Option String

module _ {A : Type 0} where
  -- `list[i] = f(list[i])`
  unfoldable pub modify : List A → ℕ → (A → A) → List A
  modify [] i f = []
  modify (x ∷ xs) zero f = f x ∷ xs
  modify (x ∷ xs) (suc i) f = x ∷ modify xs i f

  module _ (getenv : GetEnv) (assign : String → A → A) where
    -- `if (getenv(variable)) list[i] = ...getenv(variable)...;`
    unfoldable pub patch_if : Option String → ℕ → List A → List A
    patch_if none i list = list
    patch_if (some value) i list = modify list i (assign value)

    -- One such statement after the other.
    unfoldable pub patch : List (String × ℕ) → List A → List A
    unfolding patch_if
    patch [] list = list
    patch ((variable, i) ∷ rest) list = patch rest (patch_if (getenv (codes variable)) i list)

-- Horizontal tab to carriage return, and space.
abbrev is_space : ℕ → Bool
is_space c = (leb 9 c && leb c 13) || (c == 32)

abbrev is_digit : ℕ → Bool
is_digit c = leb 48 c && leb c 57

unfoldable pub digits : List ℕ → (value : ℕ) → ℕ
digits [] value = value
digits (c ∷ cs) value =
    let rest = digits cs (10 * value + (c - 48)) in if is_digit c then rest else value

-- `w` as it is stored in an `unsigned int`.
abbrev unsigned : (minus : Bool) → ℕ → ℕ
unsigned false n = n % 2 ^ 32
unsigned true n = (2 ^ 32 - n % 2 ^ 32) % 2 ^ 32

unfoldable pub signed : List ℕ → ℕ
unfolding digits
signed [] = 0
signed (c ∷ cs) =
    if c == 45
    then unsigned true (digits cs 0)
    else (if c == 43 then unsigned false (digits cs 0) else unsigned false (digits (c ∷ cs) 0))

-- `atoi` into an `unsigned int`: white space, a sign, digits. A number that no `int` holds, of which C says
-- nothing, keeps its low 32 bits.
unfoldable pub atoi : List ℕ → ℕ
unfolding signed
atoi [] = 0
atoi (c ∷ cs) = let rest = atoi cs in if is_space c then rest else signed (c ∷ cs)
