-- ===== src/Env/Modify.antt =====
-- Patching changes elements of a list, whatever the environment holds.
use Prim.Native.String.{String}
use oqs_provider.Base.{
  ℕ, zero, suc, ◌≡◌, refl, sym, ap, ◌∙◌, Option, none, some, List, [], ◌∷◌, codes,
}
use oqs_provider.Env.{GetEnv, modify, patch_if, patch}

module _ {A : Type 0} where
  modify_id : (list : List A) (i : ℕ) → modify list i (λ x. x) ≡ list
  unfolding modify
  modify_id [] i = refl
  modify_id (x ∷ xs) zero = refl
  modify_id (x ∷ xs) (suc i) = ap (◌∷◌ x) (modify_id xs i)

  module _ (getenv : GetEnv) (assign : String → A → A) where
    -- The element with the value of the variable, or as it is.
    abbrev pub assigned : Option String → A → A
    assigned none x = x
    assigned (some value) x = assign value x

    patch_if-modify :
        (value : Option String) (i : ℕ) (list : List A)
        → patch_if getenv assign value i list ≡ modify list i (assigned value)
    unfolding patch_if
    patch_if-modify none i list = sym (modify_id list i)
    patch_if-modify (some value) i list = refl

    -- The statements, with the values inside of the elements.
    unfoldable pub patch_elements : List (String × ℕ) → List A → List A
    patch_elements [] list = list
    patch_elements ((variable, i) ∷ rest) list =
        patch_elements rest (modify list i (assigned (getenv (codes variable))))

    pub patch-elements :
        (variables : List (String × ℕ)) (list : List A)
        → patch getenv assign variables list ≡ patch_elements variables list
    unfolding patch patch_elements
    patch-elements [] list = refl
    patch-elements ((variable, i) ∷ rest) list =
        patch-elements rest _
        ∙ ap (patch_elements rest) (patch_if-modify (getenv (codes variable)) i list)
