-- ===== src/Decoder/Keymgmt.antt =====
-- oqsprov/oqs_endecoder_common.c: the functions of a key management that encoders and decoders take
-- from its dispatch table. `W` is the state that these functions change.
use oqs_provider.Base.{ℕ, Bool, false, Option, none, some, List, [], ◌∷◌, if◌then◌else◌}
use oqs_provider.KeyMgmt.{Selection}

-- An entry of the table; `other` is any other function.
pub data KeymgmtEntry (W Key Params : Type 0) : Type 0 where
  keymgmt_new : (W → Option Key × W) → KeymgmtEntry W Key Params
  keymgmt_free : (Option Key → W → W) → KeymgmtEntry W Key Params
  keymgmt_import : (Key → Selection → Params → W → Bool × W) → KeymgmtEntry W Key Params
  keymgmt_export : (Key → Selection → W → Bool × W) → KeymgmtEntry W Key Params
  keymgmt_other : ℕ → KeymgmtEntry W Key Params

module _ {W Key Params : Type 0} where
  -- oqs_prov_get_keymgmt_new, _free, _import and _export: the first entry of that kind.
  unfoldable pub get_keymgmt_new : List (KeymgmtEntry W Key Params) → Option (W → Option Key × W)
  get_keymgmt_new [] = none
  get_keymgmt_new (keymgmt_new f ∷ fns) = some f
  get_keymgmt_new (_ ∷ fns) = get_keymgmt_new fns

  unfoldable pub get_keymgmt_free : List (KeymgmtEntry W Key Params) → Option (Option Key → W → W)
  get_keymgmt_free [] = none
  get_keymgmt_free (keymgmt_free f ∷ fns) = some f
  get_keymgmt_free (_ ∷ fns) = get_keymgmt_free fns

  unfoldable pub get_keymgmt_import :
      List (KeymgmtEntry W Key Params) → Option (Key → Selection → Params → W → Bool × W)
  get_keymgmt_import [] = none
  get_keymgmt_import (keymgmt_import f ∷ fns) = some f
  get_keymgmt_import (_ ∷ fns) = get_keymgmt_import fns

  unfoldable pub get_keymgmt_export :
      List (KeymgmtEntry W Key Params) → Option (Key → Selection → W → Bool × W)
  get_keymgmt_export [] = none
  get_keymgmt_export (keymgmt_export f ∷ fns) = some f
  get_keymgmt_export (_ ∷ fns) = get_keymgmt_export fns

  -- From the new key on.
  abbrev import_into :
      (Option Key → W → W)
      → (Key → Selection → Params → W → Bool × W)
      → Selection
      → Params
      → Option Key × W
      → Option Key × W
  import_into free import_ selection params (none, w) = (none, free none w)
  import_into free import_ selection params (some key, w) =
      let r = import_ key selection params w in
      if r.0 then (some key, r.1) else (none, free (some key) r.1)

  abbrev import_with :
      Option (W → Option Key × W)
      → Option (Option Key → W → W)
      → Option (Key → Selection → Params → W → Bool × W)
      → Selection
      → Params
      → W
      → Option Key × W
  import_with (some new) (some free) (some import_) selection params w =
      import_into free import_ selection params (new w)
  import_with _ _ _ selection params w = (none, w)

  -- oqs_prov_import_key: a key that takes the parameters, or none, which is freed.
  unfoldable pub import_key :
      List (KeymgmtEntry W Key Params) → Selection → Params → W → Option Key × W
  import_key fns selection params w =
      import_with (get_keymgmt_new fns) (get_keymgmt_free fns) (get_keymgmt_import fns) selection
        params w

  -- oqs_prov_free_key
  unfoldable pub free_key : List (KeymgmtEntry W Key Params) → Option Key → W → W
  free_key fns key w = elim (get_keymgmt_free fns) [ none ↦ w | some free ↦ free key w ]

  -- der2key_export_object of oqsprov/oqs_decode_der2key.c: the key of a reference of the right size is
  -- exported with the selection that was decoded.
  unfoldable pub export_object :
      List (KeymgmtEntry W Key Params)
      → (selection : Selection) → (reference : Option Key) → W
      → Bool × W
  export_object fns selection none w = (false, w)
  export_object fns selection (some key) w = elim (get_keymgmt_export fns) [
    | none ↦ (false, w)
    | some export_ ↦ export_ key selection w
  ]
