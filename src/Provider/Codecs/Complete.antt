-- ===== src/Provider/Codecs/Complete.antt =====
-- The encoders and decoders that oqsprov/oqsprov.c offers of an algorithm, with what their functions were made
-- for.
use Prim.Native.String.{String}
use text.Mathlib.Text.{◌==◌ as str_eq}
use oqs_provider.Base.{
  ℕ, ◌≡◌, refl, Bool, true, false, Option, none, some, List, [], ◌∷◌, get_elem?, if◌then◌else◌,
}
use oqs_provider.Extern.{der, pem}
use oqs_provider.NidTable.{NidName, nid_names}
use oqs_provider.Encoder.Key2any.{
  encrypted_private_key_info, private_key_info, subject_public_key_info,
}
use oqs_provider.Encoder.Instances.{
  Output, structure, as_text, encoder_instances, impl_types, find_encoder, pem_type_of,
}
use oqs_provider.Decoder.Instances.{Structure, decoder_instances, find_decoder}
use oqs_provider.KeyMgmt.Constructors.{Arguments, constructors}
use oqs_provider.KeyMgmt.Constructors.Agreement.{
  find_constructors, without_index, row_arguments, map_rows-at,
}
use oqs_provider.Provider.Codecs.{EncoderEntry, DecoderEntry, encoder_table, decoder_table}

-- What an encoder puts out, the name that it looks the algorithm up by, and what the key management that it
-- imports keys with makes; the same of a decoder.
pub record OfferedEncoder : Type 0 where
  pub output : Output
  pub typestr : String
  pub new_key : Arguments

pub record OfferedDecoder : Type 0 where
  pub kind : Structure
  pub tls_name : String
  pub new_key : Arguments

-- `none` where a symbol, a macro or a key management is missing.
abbrev offered_encoder : Bool → EncoderEntry → Option OfferedEncoder
offered_encoder kem_encoders e =
    elim (find_encoder (encoder_instances kem_encoders) e.sym e.output) [
      | none ↦ none
      | some i ↦ elim (pem_type_of impl_types i.impl) [
        | none ↦ none
        | some typestr ↦ elim (find_constructors constructors i.functions) [
          | none ↦ none
          | some c ↦
              some
                (record { output = i.output; typestr = typestr; new_key = without_index c.new_key })
        ]
      ]
    ]

abbrev offered_decoder : Bool → DecoderEntry → Option OfferedDecoder
offered_decoder kem_encoders d =
    elim (find_decoder (decoder_instances kem_encoders) d.sym d.structure_) [
      | none ↦ none
      | some i ↦ elim (find_constructors constructors i.functions) [
        | none ↦ none
        | some c ↦
            some (record {
              kind = i.kind;
              tls_name = i.keytype_name;
              new_key = without_index c.new_key;
            })
      ]
    ]

-- Those of the entries of a name, in their order.
unfoldable pub encoders_named : Bool → List EncoderEntry → String → List (Option OfferedEncoder)
encoders_named kem_encoders [] name = []
encoders_named kem_encoders (e ∷ es) name =
    let rest = encoders_named kem_encoders es name in
    if str_eq e.name name then offered_encoder kem_encoders e ∷ rest else rest

unfoldable pub decoders_named : Bool → List DecoderEntry → String → List (Option OfferedDecoder)
decoders_named kem_encoders [] name = []
decoders_named kem_encoders (d ∷ ds) name =
    let rest = decoders_named kem_encoders ds name in
    if str_eq d.name name then offered_decoder kem_encoders d ∷ rest else rest

abbrev encoder_for : NidName → Output → Option OfferedEncoder
encoder_for r output =
    some (record { output = output; typestr = r.tlsname; new_key = row_arguments r })

abbrev decoder_for : NidName → Structure → Option OfferedDecoder
decoder_for r kind = some (record { kind = kind; tls_name = r.tlsname; new_key = row_arguments r })

abbrev pub encoders_for : NidName → List (Option OfferedEncoder)
encoders_for r =
    encoder_for r (structure private_key_info der)
    ∷ encoder_for r (structure private_key_info pem)
    ∷ encoder_for r (structure encrypted_private_key_info der)
    ∷ encoder_for r (structure encrypted_private_key_info pem)
    ∷ encoder_for r (structure subject_public_key_info der)
    ∷ encoder_for r (structure subject_public_key_info pem)
    ∷ encoder_for r as_text
    ∷ []

abbrev pub decoders_for : NidName → List (Option OfferedDecoder)
decoders_for r =
    decoder_for r Structure.private_key_info ∷ decoder_for r Structure.subject_public_key_info ∷ []

-- For every algorithm of nid_names the provider offers, in the builds with and without the KEMs, exactly
-- seven encoders, of an encrypted and a plain PrivateKeyInfo and of a SubjectPublicKeyInfo in DER and PEM and
-- of text, and two decoders, of a PrivateKeyInfo and of a SubjectPublicKeyInfo, in DER: each of them
-- works for the name of that algorithm and with a key management that makes keys of it.
pub offered-nid_names :
    (kem_encoders : Bool) (j : ℕ) (r : NidName)
    → get_elem? (nid_names kem_encoders) j ≡ some r
    → (encoders_named kem_encoders (encoder_table kem_encoders) r.tlsname ≡ encoders_for r)
      × (decoders_named kem_encoders (decoder_table kem_encoders) r.tlsname ≡ decoders_for r)
unfolding encoders_named decoders_named
offered-nid_names false j r at = (
  map_rows-at (λ x. encoders_named false (encoder_table false) x.tlsname) encoders_for
      (nid_names false) j r refl at,
  map_rows-at (λ x. decoders_named false (decoder_table false) x.tlsname) decoders_for
      (nid_names false) j r refl at,
)
offered-nid_names true j r at = (
  map_rows-at (λ x. encoders_named true (encoder_table true) x.tlsname) encoders_for
      (nid_names true) j r refl at,
  map_rows-at (λ x. decoders_named true (decoder_table true) x.tlsname) decoders_for
      (nid_names true) j r refl at,
)
