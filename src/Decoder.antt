-- ===== src/Decoder.antt =====
-- oqsprov/oqs_decode_der2key.c: the selections of a decoder, and decoding as a row of attempts. What
-- reads the DER is a parameter, as is the callback that the key is handed to.
pub mod Accepted
pub mod Keymgmt
pub mod Read
pub mod Keytype
pub mod Instances
use oqs_provider.Base.{
  Bool, true, false, not, ◌&&◌, ◌||◌, Option, none, some, List, [], ◌∷◌, if◌then◌else◌,
}
use oqs_provider.Run.{Run, ok, err, ub, passed_invalid_argument, ◌>>=◌}
use oqs_provider.Memory.{Bytes, is_null}
use oqs_provider.KeyMgmt.{Selection}

-- `selection == 0`: the mask has no other bits.
abbrev pub is_zero : Selection → Bool
is_zero s = not (s.private_key || s.public_key || s.domain_parameters || s.other_parameters)

-- `selection & OSSL_KEYMGMT_SELECT_ALL_PARAMETERS`
abbrev pub all_parameters : Selection → Bool
all_parameters s = s.domain_parameters || s.other_parameters

-- `a & b`
abbrev pub meet : Selection → Selection → Selection
meet a b = record {
  private_key = a.private_key && b.private_key;
  public_key = a.public_key && b.public_key;
  domain_parameters = a.domain_parameters && b.domain_parameters;
  other_parameters = a.other_parameters && b.other_parameters;
}

-- der2key_check_selection
unfoldable pub check_selection : (selection mask : Selection) → Bool
check_selection selection mask =
    if is_zero selection
    then true
    else (if selection.private_key
        then mask.private_key
        else (if selection.public_key
            then mask.public_key
            else (if all_parameters selection then all_parameters mask else false)))

-- `struct keytype_desc_st`: the functions are null or not. That of a PrivateKeyInfo also says whether
-- it set the flag for a fatal failure.
pub record KeytypeDesc (Key : Type 0) : Type 0 where
  pub selection_mask : Selection
  pub d2i_private_key : Option (Bytes → Run (Option Key))
  pub d2i_public_key : Option (Bytes → Run (Option Key))
  pub d2i_key_params : Option (Bytes → Run (Option Key))
  pub d2i_pkcs8 : Option (Bytes → Run (Option Key × Bool))
  pub d2i_pubkey : Option (Bytes → Run (Option Key))
  pub check_key : Option (Key → Bool)
  pub adjust_key : Option (Key → Key)

-- What is returned, the key that the callback is handed, and those that are freed.
pub record Decoded (Key : Type 0) : Type 0 where
  pub result : Bool
  pub offered : Option Key
  pub freed_keys : List Key

module _ {Key : Type 0} where
  abbrev pub key_list : Option Key → List Key
  key_list none = []
  key_list (some k) = k ∷ []

  -- A function that may be null, where the code asks for it first.
  unfoldable pub try : Option (Bytes → Run (Option Key)) → Bytes → Run (Option Key)
  try none der = ok none
  try (some f) der = f der

  -- One that is called without asking.
  abbrev pub call : Option (Bytes → Run (Option Key)) → Bytes → Run (Option Key)
  call none der = ub
  call (some f) der = f der

  -- The key and whether the failure is fatal.
  unfoldable pub private_attempt : KeytypeDesc Key → Bytes → Run (Option Key × Bool)
  unfolding try
  private_attempt desc der = elim desc.d2i_pkcs8 [
    | some f ↦ f der
    | none ↦ do key ← try desc.d2i_private_key der; ok (key, false)
  ]

  unfoldable pub public_attempt : KeytypeDesc Key → Bytes → Run (Option Key)
  public_attempt desc der = elim desc.d2i_pubkey [
    | some f ↦ f der
    | none ↦ call desc.d2i_public_key der
  ]

  module _ (desc : KeytypeDesc Key) (data_cb : Key → Bool × Bool) where
    -- The label `next`, and `end` behind it: the callback says whether it succeeded and whether it
    -- took the key.
    abbrev pub hand_over : List Key → Option Key → Decoded Key
    hand_over gone none = record { result = true; offered = none; freed_keys = gone }
    hand_over gone (some k) = record {
      result = (data_cb k).0;
      offered = some k;
      freed_keys = if (data_cb k).1 then gone else k ∷ gone;
    }

    abbrev adjusted : Key → Key
    adjusted k = elim desc.adjust_key [ none ↦ k | some f ↦ f k ]

    abbrev pub is_good : Key → Bool
    is_good k = elim desc.check_key [ none ↦ true | some f ↦ f k ]

    -- check_key and adjust_key
    unfoldable pub finish : Option Key → Decoded Key
    finish none = hand_over [] none
    finish (some k) =
        if is_good k then hand_over [] (some (adjusted k)) else hand_over (k ∷ []) none

    -- A failed attempt at what was asked for ends the row, unless the decoder guesses.
    abbrev go_on :
        (guess : Bool) → Option Key → (Option Key → Run (Decoded Key)) → Run (Decoded Key)
    go_on guess none then_ = if guess then then_ none else ok (hand_over [] none)
    go_on guess (some k) then_ = then_ (some k)

    unfoldable pub decode_params :
        (guess : Bool) → Selection → Bytes → Option Key → Run (Decoded Key)
    unfolding try
    decode_params guess selection der (some k) = ok (finish (some k))
    decode_params guess selection der none =
        if all_parameters selection
        then (do made ← try desc.d2i_key_params der; go_on guess made (λ key. ok (finish key)))
        else ok (finish none)

    unfoldable pub decode_public :
        (guess : Bool) → Selection → Bytes → Option Key → Run (Decoded Key)
    unfolding public_attempt
    decode_public guess selection der (some k) = decode_params guess selection der (some k)
    decode_public guess selection der none =
        if selection.public_key
        then (do
          made ← public_attempt desc der
          go_on guess made (decode_params guess selection der))
        else decode_params guess selection der none

    unfoldable pub decode_private : (guess : Bool) → Selection → Bytes → Run (Decoded Key)
    unfolding private_attempt
    decode_private guess selection der =
        if selection.private_key
        then (do
          made ← private_attempt desc der
          if made.1
              then ok (record { result = false; offered = none; freed_keys = key_list made.0 })
              else go_on guess made.0 (decode_public guess selection der))
        else decode_public guess selection der none

    unfoldable pub decode_from : (guess : Bool) → Selection → Option Bytes → Run (Decoded Key)
    decode_from guess selection none = ok (hand_over [] none)
    decode_from guess selection (some der) = decode_private guess selection der

    -- oqs_der2key_decode, with what oqs_read_der gives.
    unfoldable pub decode : Option Bytes → Selection → Run (Decoded Key)
    decode der selection =
        let asked = if is_zero selection then desc.selection_mask else selection in
        if is_zero (meet asked desc.selection_mask)
        then err passed_invalid_argument
        else decode_from (is_zero selection) asked der
