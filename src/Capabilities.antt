-- ===== src/Capabilities.antt =====
-- oqsprov/oqsprov_capabilities.c: the code points and what of them the environment changes, and the
-- capabilities that a callback is given.
pub mod Groups
pub mod Sigalgs
pub mod Offered
use Prim.Native.String.{String}
use oqs_provider.Base.{
  ℕ, ◌==◌, Bool, true, false, not, Option, none, some, List, [], ◌∷◌, if◌then◌else◌, get_elem?,
  codes, uppers,
}
use oqs_provider.Run.{Run, ok, ub, ◌>>=◌}
use oqs_provider.Key.New.{same_bytes}
use oqs_provider.Env.{GetEnv, patch, atoi}
use oqs_provider.Capabilities.Groups.{
  GroupConstants, GroupEntry, group_list, group_entries, group_variables,
}
use oqs_provider.Capabilities.Sigalgs.{
  SigalgConstants, SigalgEntry, sigalg_list, sigalg_entries, sigalg_variables,
}

-- The two static lists that can be changed.
pub record Codepoints : Type 0 where
  pub groups : List GroupConstants
  pub sigalgs : List SigalgConstants

abbrev pub codepoints : Codepoints
codepoints = record { groups = group_list; sigalgs = sigalg_list }

abbrev pub set_group : String → GroupConstants → GroupConstants
set_group value g = record g { group_id = atoi (codes value) }

abbrev pub set_sigalg : String → SigalgConstants → SigalgConstants
set_sigalg value s = record s { code_point = atoi (codes value) }

-- oqs_patch_codepoints, which always returns 1.
unfoldable pub patch_codepoints : GetEnv → Codepoints → Codepoints
patch_codepoints getenv c = record {
  groups = patch getenv set_group group_variables c.groups;
  sigalgs = patch getenv set_sigalg sigalg_variables c.sigalgs;
}

-- The parameters of an entry, with what its pointers lead to.
pub data Params : Type 0 where
  group_params : (tlsname realname algorithm : String) → GroupConstants → Params
  sigalg_params : (tlsname oid : String) → SigalgConstants → Params

-- A list of constants that an entry's place lies outside of is read beyond its end.
unfoldable pub group_param_list : List GroupConstants → List GroupEntry → Run (List Params)
group_param_list groups [] = ok []
group_param_list groups (e ∷ es) = elim (get_elem? groups e.idx) [
  | none ↦ ub
  | some g ↦ do
    rest ← group_param_list groups es
    ok (group_params e.tlsname e.realname e.algorithm g ∷ rest)
]

unfoldable pub sigalg_param_list : List SigalgConstants → List SigalgEntry → Run (List Params)
sigalg_param_list sigalgs [] = ok []
sigalg_param_list sigalgs (e ∷ es) = elim (get_elem? sigalgs e.idx) [
  | none ↦ ub
  | some s ↦ do rest ← sigalg_param_list sigalgs es; ok (sigalg_params e.tlsname e.oid s ∷ rest)
]

-- `strcasecmp(a, b) == 0`
abbrev pub same_ignoring_case : String → String → Bool
same_ignoring_case a b = same_bytes (uppers (codes a)) (uppers (codes b))

module _ {W : Type 0} (cb : Params → W → Bool × W) where
  -- The loop of oqs_group_capability and oqs_sigalg_capability: the first refusal ends it.
  unfoldable pub call_all : List Params → W → Bool × W
  call_all [] w = (true, w)
  call_all (p ∷ ps) w =
      let r = cb p w in let rest = call_all ps r.1 in if not r.0 then (false, r.1) else rest

  -- oqs_provider_get_capabilities, where OpenSSL has OSSL_CAPABILITY_TLS_SIGALG_NAME or not.
  unfoldable pub get_capabilities : (has_sigalgs : Bool) → Codepoints → String → W → Run (Bool × W)
  unfolding group_param_list sigalg_param_list call_all
  get_capabilities has_sigalgs c capability w =
      if same_ignoring_case capability "TLS-GROUP"
      then (do ps ← group_param_list c.groups group_entries; ok (call_all ps w))
      else (if has_sigalgs
          then (if same_ignoring_case capability "TLS-SIGALG"
              then (do ps ← sigalg_param_list c.sigalgs sigalg_entries; ok (call_all ps w))
              else ok (false, w))
          else ok (false, w))
