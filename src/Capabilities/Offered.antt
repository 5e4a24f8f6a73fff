-- ===== src/Capabilities/Offered.antt =====
-- What the callback of a capability is given.
use Prim.Native.String.{String}
use oqs_provider.Base.{
  ℕ, ◌≡◌, refl, ap, ◌∙◌, Bool, true, false, ◌&&◌, Option, none, some, List, [], ◌∷◌, ◌++◌, codes,
  uppers, Bool-cases, inl, inr, if◌then◌else◌,
}
use oqs_provider.Run.{ok, ◌>>=◌}
use oqs_provider.Env.{GetEnv, modify}
use oqs_provider.Env.Modify.{assigned, patch_elements, patch-elements}
use oqs_provider.Capabilities.Groups.{
  GroupConstants, GroupEntry, group_list, group_entries, group_variables,
}
use oqs_provider.Capabilities.Sigalgs.{
  SigalgConstants, SigalgEntry, sigalg_list, sigalg_entries, sigalg_variables,
}
use oqs_provider.Capabilities.{
  codepoints, set_group, set_sigalg, patch_codepoints, Params, group_params, sigalg_params,
  group_param_list, sigalg_param_list, call_all, same_ignoring_case, get_capabilities,
}

-- OQS_CODEPOINT_ and the name of the algorithm in upper case.
abbrev pub variable : String → List ℕ
variable name = codes "OQS_CODEPOINT_" ++ uppers (codes name)

module _ (getenv : GetEnv) where
  -- Each group under its name, with the value of its own variable for its number.
  abbrev pub offered_groups : List GroupConstants → List GroupEntry → List Params
  offered_groups (g ∷ gs) (e ∷ es) =
      group_params e.tlsname e.tlsname e.tlsname
        (assigned getenv set_group (getenv (variable e.tlsname)) g)
      ∷ offered_groups gs es
  offered_groups _ _ = []

  abbrev pub offered_sigalgs : List SigalgConstants → List SigalgEntry → List Params
  offered_sigalgs (s ∷ ss) (e ∷ es) =
      sigalg_params e.tlsname e.oid (assigned getenv set_sigalg (getenv (variable e.tlsname)) s)
      ∷ offered_sigalgs ss es
  offered_sigalgs _ _ = []

  groups-offered :
      group_param_list (patch_codepoints getenv codepoints).groups group_entries
      ≡ ok (offered_groups group_list group_entries)
  unfolding patch_codepoints group_param_list patch_elements modify
  groups-offered =
      ap (λ groups. group_param_list groups group_entries)
        (patch-elements getenv set_group group_variables group_list)
      ∙ refl

  sigalgs-offered :
      sigalg_param_list (patch_codepoints getenv codepoints).sigalgs sigalg_entries
      ≡ ok (offered_sigalgs sigalg_list sigalg_entries)
  unfolding patch_codepoints sigalg_param_list patch_elements modify
  sigalgs-offered =
      ap (λ sigalgs. sigalg_param_list sigalgs sigalg_entries)
        (patch-elements getenv set_sigalg sigalg_variables sigalg_list)
      ∙ refl

  -- What is offered for a capability, in letters of either case.
  abbrev pub offered : (has_sigalgs : Bool) → String → Option (List Params)
  offered has_sigalgs capability =
      if same_ignoring_case capability "TLS-GROUP"
      then some (offered_groups group_list group_entries)
      else (if has_sigalgs && same_ignoring_case capability "TLS-SIGALG"
          then some (offered_sigalgs sigalg_list sigalg_entries)
          else none)

  module _ {W : Type 0} (cb : Params → W → Bool × W) where
    abbrev pub answer : Option (List Params) → W → Bool × W
    answer none w = (false, w)
    answer (some ps) w = call_all cb ps w

    -- For the TLS groups, and for the TLS signature algorithms where OpenSSL knows them, the provider hands to
    -- the callback each entry of its list, in order and up to the first that is refused, under its own name
    -- and with the value of the variable that is named after it for its code point, or the one of the
    -- source where there is no such variable; any other capability is refused without a call.
    pub get_capabilities-offered :
        (has_sigalgs : Bool) (capability : String) (w : W)
        → get_capabilities cb has_sigalgs (patch_codepoints getenv codepoints) capability w
          ≡ ok (answer (offered has_sigalgs capability) w)
    unfolding get_capabilities
    get_capabilities-offered has_sigalgs capability w =
        elim (Bool-cases (same_ignoring_case capability "TLS-GROUP")) [
          | inl groups ↦ rw (groups) (rw (groups-offered) refl)
          | inr no_groups ↦ rw (no_groups) (by_version has_sigalgs)
        ]
      where
        sigalgs_case :
            (b : Bool)
            → (if b
                then (sigalg_param_list (patch_codepoints getenv codepoints).sigalgs sigalg_entries
                    >>= λ ps. ok (call_all cb ps w))
                else ok (false, w))
              ≡ ok
                  (answer (if b then some (offered_sigalgs sigalg_list sigalg_entries) else none) w)
        sigalgs_case true = rw (sigalgs-offered) refl
        sigalgs_case false = refl

        by_version :
            (has : Bool)
            → (if has
                then (if same_ignoring_case capability "TLS-SIGALG"
                    then (sigalg_param_list
                          (patch_codepoints getenv codepoints).sigalgs
                          sigalg_entries
                        >>= λ ps. ok (call_all cb ps w))
                    else ok (false, w))
                else ok (false, w))
              ≡ ok (
                  answer
                    (if has && same_ignoring_case capability "TLS-SIGALG"
                      then some (offered_sigalgs sigalg_list sigalg_entries)
                      else none)
                    w)
        by_version true = sigalgs_case (same_ignoring_case capability "TLS-SIGALG")
        by_version false = refl
