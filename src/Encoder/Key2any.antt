-- ===== src/Encoder/Key2any.antt =====
-- oqsprov/oqs_encode_key2any.c: the encoders that MAKE_ENCODER makes, with their context.
pub mod Sealed
pub mod Balance
use Prim.Native.String.{String}
use oqs_provider.Base.{
  ℕ, ◌==◌, Bool, true, false, not, ◌&&◌, Option, none, some, List, [], ◌∷◌, if◌then◌else◌,
}
use oqs_provider.Run.{Run, ok, err, silent, passed_null_parameter, passed_invalid_argument}
use oqs_provider.Memory.{Bytes, is_null}
use oqs_provider.Extern.{Asn1, Envelope, Form}
use oqs_provider.Key.{OqsxKey}
use oqs_provider.KeyMgmt.{Selection}
use oqs_provider.Bio.{Upcalls, OutBio, bio_new_from_core_bio, bio_free_out}
use oqs_provider.Encoder.Blob.{spki_pub_to_der}
use oqs_provider.Encoder.Envelope.{
  Key2anyCtx, private_der, key_to_epki_priv_bio, key_to_pki_priv_bio, key_to_spki_pub_bio,
}

-- A string parameter: of another type, or a pointer that may be null.
pub data StringParam : Type 0 where
  other_type : StringParam
  utf8_ptr : Option String → StringParam

-- The structures that the encoders write; none of them is made for parameters.
pub data Kind : Type 0 where
  encrypted_private_key_info private_key_info subject_public_key_info : Kind

abbrev pub is_zero : Selection → Bool
is_zero s =
    not s.private_key && not s.public_key && not s.domain_parameters && not s.other_parameters

abbrev pub all_parameters : Selection → Bool
all_parameters s = not (not s.domain_parameters && not s.other_parameters)

-- The masks that key2any_check_selection goes through.
abbrev pub checks : List (Selection → Bool)
checks = (λ s. s.private_key) ∷ (λ s. s.public_key) ∷ all_parameters ∷ []

unfoldable pub check_levels : List (Selection → Bool) → (selection mask : Selection) → Bool
check_levels [] selection mask = false
check_levels (level ∷ levels) selection mask =
    let rest = check_levels levels selection mask in if level selection then level mask else rest

unfoldable pub key2any_check_selection : (selection mask : Selection) → Bool
unfolding check_levels
key2any_check_selection selection mask =
    if is_zero selection then true else check_levels checks selection mask

abbrev pub only_private : Selection
only_private = record {
  private_key = true;
  public_key = false;
  domain_parameters = false;
  other_parameters = false;
}

abbrev pub only_public : Selection
only_public = record only_private { private_key = false; public_key = true }

-- DO_..._selection_mask
abbrev pub selection_mask : Kind → Selection
selection_mask encrypted_private_key_info = only_private
selection_mask private_key_info = only_private
selection_mask subject_public_key_info = only_public

-- Whether DO_PRIVATE_KEY or DO_PUBLIC_KEY is taken.
abbrev pub is_selected : Kind → Selection → Bool
is_selected encrypted_private_key_info s = s.private_key
is_selected private_key_info s = s.private_key
is_selected subject_public_key_info s = s.public_key

-- What is returned, the core's state behind it, and the context.
pub record Encoded (W Cipher : Type 0) : Type 0 where
  pub result : Run Bytes
  pub core : W
  pub ctx : Key2anyCtx Cipher

module _ (asn : Asn1) where
  open asn use {Cipher, sn2nid, cipher_fetch}

  -- key2any_newctx, where the allocation succeeds.
  unfoldable pub key2any_newctx : Key2anyCtx Cipher
  key2any_newctx = record { save_parameters = 1; cipher_intent = false; cipher = none; pwcb = none }

  -- The properties that go with the name of a cipher: `none` for a parameter of another type.
  abbrev props_of : Option StringParam → Option (Option String)
  props_of none = some none
  props_of (some other_type) = none
  props_of (some (utf8_ptr props)) = some props

  abbrev set_cipher :
      Key2anyCtx Cipher → Option String → Option (Option String) → Key2anyCtx Cipher × Bool
  set_cipher ctx name none = (ctx, false)
  set_cipher ctx none (some props) = (record ctx { cipher = none; cipher_intent = false }, true)
  set_cipher ctx (some name) (some props) = (
    record ctx { cipher = cipher_fetch name props; cipher_intent = true },
    not (is_null (cipher_fetch name props)),
  )

  unfoldable pub set_cipher_param :
      Key2anyCtx Cipher → (cipherp propsp : Option StringParam) → Key2anyCtx Cipher × Bool
  set_cipher_param ctx none propsp = (ctx, true)
  set_cipher_param ctx (some other_type) propsp = (ctx, false)
  set_cipher_param ctx (some (utf8_ptr name)) propsp = set_cipher ctx name (props_of propsp)

  abbrev set_save : Key2anyCtx Cipher → Option (Option ℕ) → Key2anyCtx Cipher × Bool
  set_save ctx none = (ctx, true)
  set_save ctx (some none) = (ctx, false)
  set_save ctx (some (some n)) = (record ctx { save_parameters = n }, true)

  -- key2any_set_ctx_params, with `false` for the return value 0.
  unfoldable pub key2any_set_ctx_params :
      Key2anyCtx Cipher
      → (cipherp propsp : Option StringParam) → (save_paramsp : Option (Option ℕ))
      → Key2anyCtx Cipher × Bool
  unfolding set_cipher_param
  key2any_set_ctx_params ctx cipherp propsp save_paramsp =
      let set = set_cipher_param ctx cipherp propsp in
      if set.1 then set_save set.0 save_paramsp else set

  -- The writer of a kind and a form, with the function that gives the bytes.
  unfoldable pub writer :
      {Pkey : Type 0}
      → (alloc_ok : Bool) → Kind
      → Form
      → OqsxKey Pkey
      → ℕ
      → Key2anyCtx Cipher
      → Run Bytes
  unfolding private_der key_to_epki_priv_bio key_to_pki_priv_bio key_to_spki_pub_bio
  writer alloc_ok encrypted_private_key_info form key type ctx =
      key_to_epki_priv_bio asn form key type (private_der asn (some key)) ctx
  writer alloc_ok private_key_info form key type ctx =
      key_to_pki_priv_bio asn form key type (private_der asn (some key)) ctx
  writer alloc_ok subject_public_key_info form key type ctx =
      key_to_spki_pub_bio asn form key type (spki_pub_to_der alloc_ok (some key))

  module _ {W H : Type 0} (u : Upcalls W H) (alloc_ok bio_method bio_made : Bool) where
    -- The BIO is freed whether there is one or not.
    unfoldable pub write_out :
        {Pkey : Type 0}
        → Key2anyCtx Cipher
        → OqsxKey Pkey
        → (type : ℕ) → Kind
        → Form
        → Option (Option Bytes)
        → Option (OutBio H)
        → W
        → Encoded W Cipher
    unfolding writer
    write_out ctx key type kind form pwcb none w = record {
      result = err silent;
      core = bio_free_out u none w;
      ctx = ctx;
    }
    write_out ctx key type kind form pwcb (some out) w = record {
      result = writer alloc_ok kind form key type (record ctx { pwcb = pwcb });
      core = bio_free_out u (some out) w;
      ctx = record ctx { pwcb = pwcb };
    }

    unfoldable pub encode_key :
        {Pkey : Type 0}
        → Key2anyCtx Cipher
        → OqsxKey Pkey
        → (type : ℕ) → Kind
        → Form
        → Option (Option Bytes)
        → H
        → W
        → Encoded W Cipher
    unfolding write_out
    encode_key ctx key type kind form pwcb cout w =
        if type == 0
        then record { result = err passed_null_parameter; core = w; ctx = ctx }
        else (let out = bio_new_from_core_bio u bio_method bio_made cout w in
            write_out ctx key type kind form pwcb out.0 out.1)

    -- key2any_encode, with the name of the algorithm. What a writer writes through the BIO is its result.
    unfoldable pub key2any_encode :
        {Pkey : Type 0}
        → Key2anyCtx Cipher
        → H
        → Option (OqsxKey Pkey)
        → (typestr : String) → Kind
        → Form
        → (pwcb : Option (Option Bytes)) → W
        → Encoded W Cipher
    unfolding encode_key
    key2any_encode ctx cout none typestr kind form pwcb w = record {
      result = err passed_null_parameter;
      core = w;
      ctx = ctx;
    }
    key2any_encode ctx cout (some key) typestr kind form pwcb w =
        encode_key ctx key (sn2nid typestr) kind form pwcb cout w

    -- The `_encode` of MAKE_ENCODER: nothing abstract is encoded, and what is not selected is refused.
    unfoldable pub encode :
        {Pkey : Type 0}
        → (typestr : String) → Kind
        → Form
        → Key2anyCtx Cipher
        → H
        → Option (OqsxKey Pkey)
        → (key_abstract : Bool) → Selection
        → (pwcb : Option (Option Bytes)) → W
        → Encoded W Cipher
    unfolding key2any_encode
    encode typestr kind form ctx cout key key_abstract selection pwcb w =
        if not key_abstract && is_selected kind selection
        then key2any_encode ctx cout key typestr kind form pwcb w
        else record { result = err passed_invalid_argument; core = w; ctx = ctx }
