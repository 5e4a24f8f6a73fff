-- ===== src/Provider/Oids/Patched.antt =====
-- What oqs_patch_oids makes of the list.
use Prim.Native.String.{String}
use oqs_provider.Base.{ℕ, ◌≡◌, refl, ap, ◌∙◌, Bool, true, false, List, ◌∷◌, ◌++◌, codes, uppers}
use oqs_provider.Env.{GetEnv, modify}
use oqs_provider.Env.Modify.{assigned, patch_elements, patch-elements}
use oqs_provider.Provider.Oids.{oid_alg_list, kem_variables, sig_variables, patch_oids}

-- OQS_OID_ and the name of the algorithm in upper case.
abbrev pub variable : String → List ℕ
variable name = codes "OQS_OID_" ++ uppers (codes name)

-- Each algorithm with the value of its own variable, or its identifier where that is not set.
abbrev pub described : GetEnv → List String → List String
described getenv (oid ∷ name ∷ rest) =
    assigned getenv (λ value old. value) (getenv (variable name)) oid ∷ name ∷ described getenv rest
described getenv list = list

-- With and without the KEMs, whatever the environment holds, the patched list has each algorithm under its
-- name and at its place, with the value of the variable that is named after it for its identifier, or the
-- identifier of the source where there is no such variable.
pub patch_oids-described :
    (getenv : GetEnv) (kem_encoders : Bool)
    → patch_oids getenv kem_encoders (oid_alg_list kem_encoders)
      ≡ described getenv (oid_alg_list kem_encoders)
unfolding patch_oids patch_elements modify
patch_oids-described getenv true =
    patch-elements getenv (λ value oid. value) (sig_variables 84) _
    ∙ ap (patch_elements getenv (λ value oid. value) (sig_variables 84))
        (patch-elements getenv (λ value oid. value) kem_variables (oid_alg_list true))
    ∙ refl
patch_oids-described getenv false =
    patch-elements getenv (λ value oid. value) (sig_variables 0) (oid_alg_list false) ∙ refl
