-- ===== src/Encoder/Key2any/Balance.antt =====
-- The references that encoding takes to the core's BIO.
use Prim.Native.String.{String}
use oqs_provider.Base.{
  ℕ, ◌==◌, ◌≡◌, refl, Bool, not, ◌&&◌, Option, none, some, Bool-cases, inl, inr, ◌∙◌,
}
use oqs_provider.Memory.{Bytes}
use oqs_provider.Extern.{Asn1, Form}
use oqs_provider.Key.{OqsxKey}
use oqs_provider.KeyMgmt.{Selection}
use oqs_provider.Bio.{Upcalls, OutBio, bio_free_out}
use oqs_provider.Bio.Balance.{CountsReferences, bio_free-bio_new}
use oqs_provider.Encoder.Envelope.{Key2anyCtx}
use oqs_provider.Encoder.Key2any.{Kind, is_selected, write_out, encode_key, key2any_encode, encode}

module _ (asn : Asn1) where
  open asn use {Cipher}

  module _ {Pkey W H : Type 0} (u : Upcalls W H) (counts : CountsReferences u)
      (alloc_ok bio_method bio_made : Bool) (kind : Kind) (form : Form)
      (pwcb : Option (Option Bytes)) (ctx : Key2anyCtx Cipher) where
    write_out-core :
        (key : OqsxKey Pkey) (type : ℕ) (out : Option (OutBio H)) (w : W)
        → (write_out asn u alloc_ok bio_method bio_made ctx key type kind form pwcb out w).core
          ≡ bio_free_out u out w
    unfolding write_out
    write_out-core key type none w = refl
    write_out-core key type (some out) w = refl

    encode_key-core :
        (key : OqsxKey Pkey) (type : ℕ) (cout : H) (w : W)
        → (encode_key asn u alloc_ok bio_method bio_made ctx key type kind form pwcb cout w).core
          ≡ w
    unfolding encode_key
    encode_key-core key type cout w = elim (Bool-cases (type == 0)) [
      | inl unknown ↦ rw (unknown) refl
      | inr known ↦
          rw (known)
            (write_out-core key type _ _ ∙ bio_free-bio_new u counts bio_method bio_made cout w)
    ]

    -- Encoding, in every kind and form and on every path, errors included, leaves the core's references as they
    -- were, where the core counts them: a reference to the BIO that is taken is given back.
    pub encode-core :
        (key : Option (OqsxKey Pkey)) (typestr : String) (cout : H) (key_abstract : Bool)
        (selection : Selection) (w : W)
        → (encode asn u alloc_ok bio_method bio_made typestr kind form ctx cout key key_abstract
            selection pwcb w).core
          ≡ w
    unfolding encode key2any_encode
    encode-core key typestr cout key_abstract selection w =
        elim (Bool-cases (not key_abstract && is_selected kind selection)) [
          | inl wanted ↦ rw (wanted) (by_key key)
          | inr refused ↦ rw (refused) refl
        ]
      where
        by_key :
            (key : Option (OqsxKey Pkey))
            → (key2any_encode asn u alloc_ok bio_method bio_made ctx cout key typestr kind form pwcb
                w).core
              ≡ w
        by_key none = refl
        by_key (some k) = encode_key-core k (asn.sn2nid typestr) cout w
