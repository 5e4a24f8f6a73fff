-- ===== src/Encoder/Instances.antt =====
-- oqsprov/oqs_encode_key2any.c: the encoders that MAKE_ENCODER and MAKE_TEXT_ENCODER are used for.
use Prim.Native.String.{String}
use text.Mathlib.Text.{◌==◌ as str_eq}
use oqs_provider.Base.{
  ℕ, Bool, true, false, ◌&&◌, Option, none, some, List, [], ◌∷◌, ◌++◌, if◌then◌else◌,
}
use oqs_provider.Extern.{Form, der, pem}
use oqs_provider.Encoder.Key2any.{
  Kind, encrypted_private_key_info, private_key_info, subject_public_key_info,
}

-- What an encoder puts out.
pub data Output : Type 0 where
  structure : Kind → Form → Output
  as_text : Output

abbrev same_kind : Kind → Kind → Bool
same_kind encrypted_private_key_info encrypted_private_key_info = true
same_kind private_key_info private_key_info = true
same_kind subject_public_key_info subject_public_key_info = true
same_kind _ _ = false

abbrev same_form : Form → Form → Bool
same_form der der = true
same_form pem pem = true
same_form _ _ = false

abbrev pub same_output : Output → Output → Bool
same_output (structure kind form) (structure kind' form') =
    same_kind kind kind' && same_form form form'
same_output as_text as_text = true
same_output _ _ = false

-- The name of the key management table that its keys are imported with, by the text between `oqs_` and
-- `_keymgmt_functions`, and `impl`.
pub record EncoderInstance : Type 0 where
  pub functions : String
  pub impl : String
  pub output : Output

-- MAKE_ENCODER and MAKE_TEXT_ENCODER
abbrev make_encoder : String → String → Kind → Form → EncoderInstance
make_encoder functions impl kind form = record {
  functions = functions;
  impl = impl;
  output = structure kind form;
}

abbrev make_text_encoder : String → String → EncoderInstance
make_text_encoder functions impl = record { functions = functions; impl = impl; output = as_text }

-- The seven uses that stand there of each algorithm, in the order of the source.
abbrev all_outputs : String → String → List EncoderInstance
all_outputs functions impl =
    make_encoder functions impl encrypted_private_key_info der
    ∷ make_encoder functions impl encrypted_private_key_info pem
    ∷ make_encoder functions impl private_key_info der
    ∷ make_encoder functions impl private_key_info pem
    ∷ make_encoder functions impl subject_public_key_info der
    ∷ make_encoder functions impl subject_public_key_info pem
    ∷ make_text_encoder functions impl
    ∷ []

abbrev frodo_encoders : List EncoderInstance
frodo_encoders =
    all_outputs "frodo640aes" "frodo640aes"
    ++ all_outputs "ecp_p256_frodo640aes" "p256_frodo640aes"
    ++ all_outputs "ecx_x25519_frodo640aes" "x25519_frodo640aes"
    ++ all_outputs "frodo640shake" "frodo640shake"
    ++ all_outputs "ecp_p256_frodo640shake" "p256_frodo640shake"
    ++ all_outputs "ecx_x25519_frodo640shake" "x25519_frodo640shake"
    ++ all_outputs "frodo976aes" "frodo976aes"
    ++ all_outputs "ecp_p384_frodo976aes" "p384_frodo976aes"
    ++ all_outputs "ecx_x448_frodo976aes" "x448_frodo976aes"
    ++ all_outputs "frodo976shake" "frodo976shake"
    ++ all_outputs "ecp_p384_frodo976shake" "p384_frodo976shake"
    ++ all_outputs "ecx_x448_frodo976shake" "x448_frodo976shake"
    ++ all_outputs "frodo1344aes" "frodo1344aes"
    ++ all_outputs "ecp_p521_frodo1344aes" "p521_frodo1344aes"
    ++ all_outputs "frodo1344shake" "frodo1344shake"
    ++ all_outputs "ecp_p521_frodo1344shake" "p521_frodo1344shake"
    ++ []

abbrev kyber_encoders : List EncoderInstance
kyber_encoders =
    all_outputs "kyber512" "kyber512"
    ++ all_outputs "ecp_p256_kyber512" "p256_kyber512"
    ++ all_outputs "ecx_x25519_kyber512" "x25519_kyber512"
    ++ all_outputs "kyber768" "kyber768"
    ++ all_outputs "ecp_p384_kyber768" "p384_kyber768"
    ++ all_outputs "ecx_x448_kyber768" "x448_kyber768"
    ++ all_outputs "ecx_x25519_kyber768" "x25519_kyber768"
    ++ all_outputs "ecp_p256_kyber768" "p256_kyber768"
    ++ all_outputs "kyber1024" "kyber1024"
    ++ all_outputs "ecp_p521_kyber1024" "p521_kyber1024"
    ++ []

abbrev bike_encoders : List EncoderInstance
bike_encoders =
    all_outputs "bikel1" "bikel1"
    ++ all_outputs "ecp_p256_bikel1" "p256_bikel1"
    ++ all_outputs "ecx_x25519_bikel1" "x25519_bikel1"
    ++ all_outputs "bikel3" "bikel3"
    ++ all_outputs "ecp_p384_bikel3" "p384_bikel3"
    ++ all_outputs "ecx_x448_bikel3" "x448_bikel3"
    ++ all_outputs "bikel5" "bikel5"
    ++ all_outputs "ecp_p521_bikel5" "p521_bikel5"
    ++ []

abbrev hqc_encoders : List EncoderInstance
hqc_encoders =
    all_outputs "hqc128" "hqc128"
    ++ all_outputs "ecp_p256_hqc128" "p256_hqc128"
    ++ all_outputs "ecx_x25519_hqc128" "x25519_hqc128"
    ++ all_outputs "hqc192" "hqc192"
    ++ all_outputs "ecp_p384_hqc192" "p384_hqc192"
    ++ all_outputs "ecx_x448_hqc192" "x448_hqc192"
    ++ all_outputs "hqc256" "hqc256"
    ++ all_outputs "ecp_p521_hqc256" "p521_hqc256"
    ++ []

abbrev dilithium_encoders : List EncoderInstance
dilithium_encoders =
    all_outputs "dilithium2" "dilithium2"
    ++ all_outputs "p256_dilithium2" "p256_dilithium2"
    ++ all_outputs "rsa3072_dilithium2" "rsa3072_dilithium2"
    ++ all_outputs "dilithium3" "dilithium3"
    ++ all_outputs "p384_dilithium3" "p384_dilithium3"
    ++ all_outputs "dilithium5" "dilithium5"
    ++ all_outputs "p521_dilithium5" "p521_dilithium5"
    ++ []

abbrev falcon_encoders : List EncoderInstance
falcon_encoders =
    all_outputs "falcon512" "falcon512"
    ++ all_outputs "p256_falcon512" "p256_falcon512"
    ++ all_outputs "rsa3072_falcon512" "rsa3072_falcon512"
    ++ all_outputs "falcon1024" "falcon1024"
    ++ all_outputs "p521_falcon1024" "p521_falcon1024"
    ++ []

abbrev sphincs_encoders : List EncoderInstance
sphincs_encoders =
    all_outputs "sphincssha2128fsimple" "sphincssha2128fsimple"
    ++ all_outputs "p256_sphincssha2128fsimple" "p256_sphincssha2128fsimple"
    ++ all_outputs "rsa3072_sphincssha2128fsimple" "rsa3072_sphincssha2128fsimple"
    ++ all_outputs "sphincssha2128ssimple" "sphincssha2128ssimple"
    ++ all_outputs "p256_sphincssha2128ssimple" "p256_sphincssha2128ssimple"
    ++ all_outputs "rsa3072_sphincssha2128ssimple" "rsa3072_sphincssha2128ssimple"
    ++ all_outputs "sphincssha2192fsimple" "sphincssha2192fsimple"
    ++ all_outputs "p384_sphincssha2192fsimple" "p384_sphincssha2192fsimple"
    ++ all_outputs "sphincsshake128fsimple" "sphincsshake128fsimple"
    ++ all_outputs "p256_sphincsshake128fsimple" "p256_sphincsshake128fsimple"
    ++ all_outputs "rsa3072_sphincsshake128fsimple" "rsa3072_sphincsshake128fsimple"
    ++ []

-- Those under OQS_KEM_ENCODERS come first.
abbrev pub encoder_instances : Bool → List EncoderInstance
encoder_instances true =
    frodo_encoders ++ kyber_encoders ++ bike_encoders ++ hqc_encoders ++ dilithium_encoders
    ++ falcon_encoders ++ sphincs_encoders
encoder_instances false = dilithium_encoders ++ falcon_encoders ++ sphincs_encoders

-- The macros `impl##_evp_type`, `impl##_input_type` and `impl##_pem_type`.
pub record ImplTypes : Type 0 where
  pub impl : String
  pub evp_type : ℕ
  pub input_type : String
  pub pem_type : String

abbrev types : String → ℕ → String → String → ImplTypes
types impl evp_type input_type pem_type = record {
  impl = impl;
  evp_type = evp_type;
  input_type = input_type;
  pem_type = pem_type;
}

abbrev kem_types : List ImplTypes
kem_types =
    types "frodo640aes" 0 "frodo640aes" "frodo640aes"
    ∷ types "p256_frodo640aes" 0 "p256_frodo640aes" "p256_frodo640aes"
    ∷ types "x25519_frodo640aes" 0 "x25519_frodo640aes" "x25519_frodo640aes"
    ∷ types "frodo640shake" 0 "frodo640shake" "frodo640shake"
    ∷ types "p256_frodo640shake" 0 "p256_frodo640shake" "p256_frodo640shake"
    ∷ types "x25519_frodo640shake" 0 "x25519_frodo640shake" "x25519_frodo640shake"
    ∷ types "frodo976aes" 0 "frodo976aes" "frodo976aes"
    ∷ types "p384_frodo976aes" 0 "p384_frodo976aes" "p384_frodo976aes"
    ∷ types "x448_frodo976aes" 0 "x448_frodo976aes" "x448_frodo976aes"
    ∷ types "frodo976shake" 0 "frodo976shake" "frodo976shake"
    ∷ types "p384_frodo976shake" 0 "p384_frodo976shake" "p384_frodo976shake"
    ∷ types "x448_frodo976shake" 0 "x448_frodo976shake" "x448_frodo976shake"
    ∷ types "frodo1344aes" 0 "frodo1344aes" "frodo1344aes"
    ∷ types "p521_frodo1344aes" 0 "p521_frodo1344aes" "p521_frodo1344aes"
    ∷ types "frodo1344shake" 0 "frodo1344shake" "frodo1344shake"
    ∷ types "p521_frodo1344shake" 0 "p521_frodo1344shake" "p521_frodo1344shake"
    ∷ types "kyber512" 0 "kyber512" "kyber512"
    ∷ types "p256_kyber512" 0 "p256_kyber512" "p256_kyber512"
    ∷ types "x25519_kyber512" 0 "x25519_kyber512" "x25519_kyber512"
    ∷ types "kyber768" 0 "kyber768" "kyber768"
    ∷ types "p384_kyber768" 0 "p384_kyber768" "p384_kyber768"
    ∷ types "x448_kyber768" 0 "x448_kyber768" "x448_kyber768"
    ∷ types "x25519_kyber768" 0 "x25519_kyber768" "x25519_kyber768"
    ∷ types "p256_kyber768" 0 "p256_kyber768" "p256_kyber768"
    ∷ types "kyber1024" 0 "kyber1024" "kyber1024"
    ∷ types "p521_kyber1024" 0 "p521_kyber1024" "p521_kyber1024"
    ∷ types "bikel1" 0 "bikel1" "bikel1"
    ∷ types "p256_bikel1" 0 "p256_bikel1" "p256_bikel1"
    ∷ types "x25519_bikel1" 0 "x25519_bikel1" "x25519_bikel1"
    ∷ types "bikel3" 0 "bikel3" "bikel3"
    ∷ types "p384_bikel3" 0 "p384_bikel3" "p384_bikel3"
    ∷ types "x448_bikel3" 0 "x448_bikel3" "x448_bikel3"
    ∷ types "bikel5" 0 "bikel5" "bikel5"
    ∷ types "p521_bikel5" 0 "p521_bikel5" "p521_bikel5"
    ∷ types "hqc128" 0 "hqc128" "hqc128"
    ∷ types "p256_hqc128" 0 "p256_hqc128" "p256_hqc128"
    ∷ types "x25519_hqc128" 0 "x25519_hqc128" "x25519_hqc128"
    ∷ types "hqc192" 0 "hqc192" "hqc192"
    ∷ types "p384_hqc192" 0 "p384_hqc192" "p384_hqc192"
    ∷ types "x448_hqc192" 0 "x448_hqc192" "x448_hqc192"
    ∷ types "hqc256" 0 "hqc256" "hqc256"
    ∷ types "p521_hqc256" 0 "p521_hqc256" "p521_hqc256"
    ∷ []

abbrev sig_types : List ImplTypes
sig_types =
    types "dilithium2" 0 "dilithium2" "dilithium2"
    ∷ types "p256_dilithium2" 0 "p256_dilithium2" "p256_dilithium2"
    ∷ types "rsa3072_dilithium2" 0 "rsa3072_dilithium2" "rsa3072_dilithium2"
    ∷ types "dilithium3" 0 "dilithium3" "dilithium3"
    ∷ types "p384_dilithium3" 0 "p384_dilithium3" "p384_dilithium3"
    ∷ types "dilithium5" 0 "dilithium5" "dilithium5"
    ∷ types "p521_dilithium5" 0 "p521_dilithium5" "p521_dilithium5"
    ∷ types "falcon512" 0 "falcon512" "falcon512"
    ∷ types "p256_falcon512" 0 "p256_falcon512" "p256_falcon512"
    ∷ types "rsa3072_falcon512" 0 "rsa3072_falcon512" "rsa3072_falcon512"
    ∷ types "falcon1024" 0 "falcon1024" "falcon1024"
    ∷ types "p521_falcon1024" 0 "p521_falcon1024" "p521_falcon1024"
    ∷ types "sphincssha2128fsimple" 0 "sphincssha2128fsimple" "sphincssha2128fsimple"
    ∷ types "p256_sphincssha2128fsimple" 0 "p256_sphincssha2128fsimple" "p256_sphincssha2128fsimple"
    ∷ types "rsa3072_sphincssha2128fsimple" 0 "rsa3072_sphincssha2128fsimple"
        "rsa3072_sphincssha2128fsimple"
    ∷ types "sphincssha2128ssimple" 0 "sphincssha2128ssimple" "sphincssha2128ssimple"
    ∷ types "p256_sphincssha2128ssimple" 0 "p256_sphincssha2128ssimple" "p256_sphincssha2128ssimple"
    ∷ types "rsa3072_sphincssha2128ssimple" 0 "rsa3072_sphincssha2128ssimple"
        "rsa3072_sphincssha2128ssimple"
    ∷ types "sphincssha2192fsimple" 0 "sphincssha2192fsimple" "sphincssha2192fsimple"
    ∷ types "p384_sphincssha2192fsimple" 0 "p384_sphincssha2192fsimple" "p384_sphincssha2192fsimple"
    ∷ types "sphincsshake128fsimple" 0 "sphincsshake128fsimple" "sphincsshake128fsimple"
    ∷ types "p256_sphincsshake128fsimple" 0 "p256_sphincsshake128fsimple"
        "p256_sphincsshake128fsimple"
    ∷ types "rsa3072_sphincsshake128fsimple" 0 "rsa3072_sphincsshake128fsimple"
        "rsa3072_sphincsshake128fsimple"
    ∷ []

abbrev pub impl_types : List ImplTypes
impl_types = kem_types ++ sig_types

-- The table that a symbol of the encoder names stands for, and `impl##_pem_type`.
abbrev pub find_encoder : List EncoderInstance → (sym : String) → Output → Option EncoderInstance
find_encoder [] sym output = none
find_encoder (e ∷ es) sym output =
    if str_eq e.impl sym && same_output e.output output then some e else find_encoder es sym output

abbrev pub pem_type_of : List ImplTypes → String → Option String
pem_type_of [] impl = none
pem_type_of (t ∷ ts) impl = if str_eq t.impl impl then some t.pem_type else pem_type_of ts impl
