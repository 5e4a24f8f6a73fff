-- ===== src/Provider/Codecs.antt =====
-- oqsprov/oqsencoders.inc and oqsprov/oqsdecoders.inc: the tables of encoders and decoders, where liboqs has
-- every algorithm.
pub mod Complete
use Prim.Native.String.{String}
use oqs_provider.Base.{Bool, true, false, List, [], ◌∷◌, ◌++◌}
use oqs_provider.Extern.{der, pem}
use oqs_provider.Encoder.Key2any.{
  encrypted_private_key_info, private_key_info, subject_public_key_info,
}
use oqs_provider.Encoder.Instances.{Output, structure, as_text}
use oqs_provider.Decoder.Instances.{Structure}

-- An entry: the name of the algorithm, and the symbol of its functions. The properties that stand beside
-- them are `output` and `structure`.
pub record EncoderEntry : Type 0 where
  pub name : String
  pub sym : String
  pub output : Output

pub record DecoderEntry : Type 0 where
  pub name : String
  pub structure_ : Structure
  pub sym : String

-- ENCODER_w_structure and ENCODER_TEXT, in the order that they have of each algorithm.
abbrev encoders_of : String → String → List EncoderEntry
encoders_of name sym =
    record { name = name; sym = sym; output = structure private_key_info der }
    ∷ record { name = name; sym = sym; output = structure private_key_info pem }
    ∷ record { name = name; sym = sym; output = structure encrypted_private_key_info der }
    ∷ record { name = name; sym = sym; output = structure encrypted_private_key_info pem }
    ∷ record { name = name; sym = sym; output = structure subject_public_key_info der }
    ∷ record { name = name; sym = sym; output = structure subject_public_key_info pem }
    ∷ record { name = name; sym = sym; output = as_text }
    ∷ []

-- DECODER_w_structure
abbrev decoders_of : String → String → List DecoderEntry
decoders_of name sym =
    record { name = name; structure_ = Structure.private_key_info; sym = sym }
    ∷ record { name = name; structure_ = Structure.subject_public_key_info; sym = sym }
    ∷ []

abbrev kem_encoder_table : List EncoderEntry
kem_encoder_table =
    encoders_of "frodo640aes" "frodo640aes"
    ++ encoders_of "p256_frodo640aes" "p256_frodo640aes"
    ++ encoders_of "x25519_frodo640aes" "x25519_frodo640aes"
    ++ encoders_of "frodo640shake" "frodo640shake"
    ++ encoders_of "p256_frodo640shake" "p256_frodo640shake"
    ++ encoders_of "x25519_frodo640shake" "x25519_frodo640shake"
    ++ encoders_of "frodo976aes" "frodo976aes"
    ++ encoders_of "p384_frodo976aes" "p384_frodo976aes"
    ++ encoders_of "x448_frodo976aes" "x448_frodo976aes"
    ++ encoders_of "frodo976shake" "frodo976shake"
    ++ encoders_of "p384_frodo976shake" "p384_frodo976shake"
    ++ encoders_of "x448_frodo976shake" "x448_frodo976shake"
    ++ encoders_of "frodo1344aes" "frodo1344aes"
    ++ encoders_of "p521_frodo1344aes" "p521_frodo1344aes"
    ++ encoders_of "frodo1344shake" "frodo1344shake"
    ++ encoders_of "p521_frodo1344shake" "p521_frodo1344shake"
    ++ encoders_of "kyber512" "kyber512"
    ++ encoders_of "p256_kyber512" "p256_kyber512"
    ++ encoders_of "x25519_kyber512" "x25519_kyber512"
    ++ encoders_of "kyber768" "kyber768"
    ++ encoders_of "p384_kyber768" "p384_kyber768"
    ++ encoders_of "x448_kyber768" "x448_kyber768"
    ++ encoders_of "x25519_kyber768" "x25519_kyber768"
    ++ encoders_of "p256_kyber768" "p256_kyber768"
    ++ encoders_of "kyber1024" "kyber1024"
    ++ encoders_of "p521_kyber1024" "p521_kyber1024"
    ++ encoders_of "bikel1" "bikel1"
    ++ encoders_of "p256_bikel1" "p256_bikel1"
    ++ encoders_of "x25519_bikel1" "x25519_bikel1"
    ++ encoders_of "bikel3" "bikel3"
    ++ encoders_of "p384_bikel3" "p384_bikel3"
    ++ encoders_of "x448_bikel3" "x448_bikel3"
    ++ encoders_of "bikel5" "bikel5"
    ++ encoders_of "p521_bikel5" "p521_bikel5"
    ++ encoders_of "hqc128" "hqc128"
    ++ encoders_of "p256_hqc128" "p256_hqc128"
    ++ encoders_of "x25519_hqc128" "x25519_hqc128"
    ++ encoders_of "hqc192" "hqc192"
    ++ encoders_of "p384_hqc192" "p384_hqc192"
    ++ encoders_of "x448_hqc192" "x448_hqc192"
    ++ encoders_of "hqc256" "hqc256"
    ++ encoders_of "p521_hqc256" "p521_hqc256"
    ++ []

abbrev sig_encoder_table : List EncoderEntry
sig_encoder_table =
    encoders_of "dilithium2" "dilithium2"
    ++ encoders_of "p256_dilithium2" "p256_dilithium2"
    ++ encoders_of "rsa3072_dilithium2" "rsa3072_dilithium2"
    ++ encoders_of "dilithium3" "dilithium3"
    ++ encoders_of "p384_dilithium3" "p384_dilithium3"
    ++ encoders_of "dilithium5" "dilithium5"
    ++ encoders_of "p521_dilithium5" "p521_dilithium5"
    ++ encoders_of "falcon512" "falcon512"
    ++ encoders_of "p256_falcon512" "p256_falcon512"
    ++ encoders_of "rsa3072_falcon512" "rsa3072_falcon512"
    ++ encoders_of "falcon1024" "falcon1024"
    ++ encoders_of "p521_falcon1024" "p521_falcon1024"
    ++ encoders_of "sphincssha2128fsimple" "sphincssha2128fsimple"
    ++ encoders_of "p256_sphincssha2128fsimple" "p256_sphincssha2128fsimple"
    ++ encoders_of "rsa3072_sphincssha2128fsimple" "rsa3072_sphincssha2128fsimple"
    ++ encoders_of "sphincssha2128ssimple" "sphincssha2128ssimple"
    ++ encoders_of "p256_sphincssha2128ssimple" "p256_sphincssha2128ssimple"
    ++ encoders_of "rsa3072_sphincssha2128ssimple" "rsa3072_sphincssha2128ssimple"
    ++ encoders_of "sphincssha2192fsimple" "sphincssha2192fsimple"
    ++ encoders_of "p384_sphincssha2192fsimple" "p384_sphincssha2192fsimple"
    ++ encoders_of "sphincsshake128fsimple" "sphincsshake128fsimple"
    ++ encoders_of "p256_sphincsshake128fsimple" "p256_sphincsshake128fsimple"
    ++ encoders_of "rsa3072_sphincsshake128fsimple" "rsa3072_sphincsshake128fsimple"
    ++ []

abbrev pub encoder_table : Bool → List EncoderEntry
encoder_table true = kem_encoder_table ++ sig_encoder_table
encoder_table false = sig_encoder_table

abbrev kem_decoder_table : List DecoderEntry
kem_decoder_table =
    decoders_of "frodo640aes" "frodo640aes"
    ++ decoders_of "p256_frodo640aes" "p256_frodo640aes"
    ++ decoders_of "x25519_frodo640aes" "x25519_frodo640aes"
    ++ decoders_of "frodo640shake" "frodo640shake"
    ++ decoders_of "p256_frodo640shake" "p256_frodo640shake"
    ++ decoders_of "x25519_frodo640shake" "x25519_frodo640shake"
    ++ decoders_of "frodo976aes" "frodo976aes"
    ++ decoders_of "p384_frodo976aes" "p384_frodo976aes"
    ++ decoders_of "x448_frodo976aes" "x448_frodo976aes"
    ++ decoders_of "frodo976shake" "frodo976shake"
    ++ decoders_of "p384_frodo976shake" "p384_frodo976shake"
    ++ decoders_of "x448_frodo976shake" "x448_frodo976shake"
    ++ decoders_of "frodo1344aes" "frodo1344aes"
    ++ decoders_of "p521_frodo1344aes" "p521_frodo1344aes"
    ++ decoders_of "frodo1344shake" "frodo1344shake"
    ++ decoders_of "p521_frodo1344shake" "p521_frodo1344shake"
    ++ decoders_of "kyber512" "kyber512"
    ++ decoders_of "p256_kyber512" "p256_kyber512"
    ++ decoders_of "x25519_kyber512" "x25519_kyber512"
    ++ decoders_of "kyber768" "kyber768"
    ++ decoders_of "p384_kyber768" "p384_kyber768"
    ++ decoders_of "x448_kyber768" "x448_kyber768"
    ++ decoders_of "x25519_kyber768" "x25519_kyber768"
    ++ decoders_of "p256_kyber768" "p256_kyber768"
    ++ decoders_of "kyber1024" "kyber1024"
    ++ decoders_of "p521_kyber1024" "p521_kyber1024"
    ++ decoders_of "bikel1" "bikel1"
    ++ decoders_of "p256_bikel1" "p256_bikel1"
    ++ decoders_of "x25519_bikel1" "x25519_bikel1"
    ++ decoders_of "bikel3" "bikel3"
    ++ decoders_of "p384_bikel3" "p384_bikel3"
    ++ decoders_of "x448_bikel3" "x448_bikel3"
    ++ decoders_of "bikel5" "bikel5"
    ++ decoders_of "p521_bikel5" "p521_bikel5"
    ++ decoders_of "hqc128" "hqc128"
    ++ decoders_of "p256_hqc128" "p256_hqc128"
    ++ decoders_of "x25519_hqc128" "x25519_hqc128"
    ++ decoders_of "hqc192" "hqc192"
    ++ decoders_of "p384_hqc192" "p384_hqc192"
    ++ decoders_of "x448_hqc192" "x448_hqc192"
    ++ decoders_of "hqc256" "hqc256"
    ++ decoders_of "p521_hqc256" "p521_hqc256"
    ++ []

abbrev sig_decoder_table : List DecoderEntry
sig_decoder_table =
    decoders_of "dilithium2" "dilithium2"
    ++ decoders_of "p256_dilithium2" "p256_dilithium2"
    ++ decoders_of "rsa3072_dilithium2" "rsa3072_dilithium2"
    ++ decoders_of "dilithium3" "dilithium3"
    ++ decoders_of "p384_dilithium3" "p384_dilithium3"
    ++ decoders_of "dilithium5" "dilithium5"
    ++ decoders_of "p521_dilithium5" "p521_dilithium5"
    ++ decoders_of "falcon512" "falcon512"
    ++ decoders_of "p256_falcon512" "p256_falcon512"
    ++ decoders_of "rsa3072_falcon512" "rsa3072_falcon512"
    ++ decoders_of "falcon1024" "falcon1024"
    ++ decoders_of "p521_falcon1024" "p521_falcon1024"
    ++ decoders_of "sphincssha2128fsimple" "sphincssha2128fsimple"
    ++ decoders_of "p256_sphincssha2128fsimple" "p256_sphincssha2128fsimple"
    ++ decoders_of "rsa3072_sphincssha2128fsimple" "rsa3072_sphincssha2128fsimple"
    ++ decoders_of "sphincssha2128ssimple" "sphincssha2128ssimple"
    ++ decoders_of "p256_sphincssha2128ssimple" "p256_sphincssha2128ssimple"
    ++ decoders_of "rsa3072_sphincssha2128ssimple" "rsa3072_sphincssha2128ssimple"
    ++ decoders_of "sphincssha2192fsimple" "sphincssha2192fsimple"
    ++ decoders_of "p384_sphincssha2192fsimple" "p384_sphincssha2192fsimple"
    ++ decoders_of "sphincsshake128fsimple" "sphincsshake128fsimple"
    ++ decoders_of "p256_sphincsshake128fsimple" "p256_sphincsshake128fsimple"
    ++ decoders_of "rsa3072_sphincsshake128fsimple" "rsa3072_sphincsshake128fsimple"
    ++ []

abbrev pub decoder_table : Bool → List DecoderEntry
decoder_table true = kem_decoder_table ++ sig_decoder_table
decoder_table false = sig_decoder_table
