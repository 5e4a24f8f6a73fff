-- ===== src/Decoder/Instances.antt =====
-- oqsprov/oqs_decode_der2key.c: the decoders that MAKE_DECODER is used for.
use Prim.Native.String.{String}
use text.Mathlib.Text.{◌==◌ as str_eq}
use oqs_provider.Base.{
  Bool, true, false, ◌&&◌, Option, none, some, List, [], ◌∷◌, ◌++◌, if◌then◌else◌,
}

-- The structures that the decoders read.
pub data Structure : Type 0 where
  private_key_info subject_public_key_info : Structure

abbrev same_structure : Structure → Structure → Bool
same_structure private_key_info private_key_info = true
same_structure subject_public_key_info subject_public_key_info = true
same_structure _ _ = false

-- The name of the key management table, `keytype_name` and `keytype`.
pub record DecoderInstance : Type 0 where
  pub functions : String
  pub keytype_name : String
  pub keytype : String
  pub kind : Structure

-- MAKE_DECODER, of which two stand there of each algorithm.
abbrev make_decoder : String → String → String → Structure → DecoderInstance
make_decoder functions keytype_name keytype kind = record {
  functions = functions;
  keytype_name = keytype_name;
  keytype = keytype;
  kind = kind;
}

abbrev both_kinds : String → String → String → List DecoderInstance
both_kinds functions keytype_name keytype =
    make_decoder functions keytype_name keytype private_key_info
    ∷ make_decoder functions keytype_name keytype subject_public_key_info
    ∷ []

abbrev kem_decoders : List DecoderInstance
kem_decoders =
    both_kinds "frodo640aes" "frodo640aes" "frodo640aes"
    ++ both_kinds "ecp_p256_frodo640aes" "p256_frodo640aes" "p256_frodo640aes"
    ++ both_kinds "ecx_x25519_frodo640aes" "x25519_frodo640aes" "x25519_frodo640aes"
    ++ both_kinds "frodo640shake" "frodo640shake" "frodo640shake"
    ++ both_kinds "ecp_p256_frodo640shake" "p256_frodo640shake" "p256_frodo640shake"
    ++ both_kinds "ecx_x25519_frodo640shake" "x25519_frodo640shake" "x25519_frodo640shake"
    ++ both_kinds "frodo976aes" "frodo976aes" "frodo976aes"
    ++ both_kinds "ecp_p384_frodo976aes" "p384_frodo976aes" "p384_frodo976aes"
    ++ both_kinds "ecx_x448_frodo976aes" "x448_frodo976aes" "x448_frodo976aes"
    ++ both_kinds "frodo976shake" "frodo976shake" "frodo976shake"
    ++ both_kinds "ecp_p384_frodo976shake" "p384_frodo976shake" "p384_frodo976shake"
    ++ both_kinds "ecx_x448_frodo976shake" "x448_frodo976shake" "x448_frodo976shake"
    ++ both_kinds "frodo1344aes" "frodo1344aes" "frodo1344aes"
    ++ both_kinds "ecp_p521_frodo1344aes" "p521_frodo1344aes" "p521_frodo1344aes"
    ++ both_kinds "frodo1344shake" "frodo1344shake" "frodo1344shake"
    ++ both_kinds "ecp_p521_frodo1344shake" "p521_frodo1344shake" "p521_frodo1344shake"
    ++ both_kinds "kyber512" "kyber512" "kyber512"
    ++ both_kinds "ecp_p256_kyber512" "p256_kyber512" "p256_kyber512"
    ++ both_kinds "ecx_x25519_kyber512" "x25519_kyber512" "x25519_kyber512"
    ++ both_kinds "kyber768" "kyber768" "kyber768"
    ++ both_kinds "ecp_p384_kyber768" "p384_kyber768" "p384_kyber768"
    ++ both_kinds "ecx_x448_kyber768" "x448_kyber768" "x448_kyber768"
    ++ both_kinds "ecx_x25519_kyber768" "x25519_kyber768" "x25519_kyber768"
    ++ both_kinds "ecp_p256_kyber768" "p256_kyber768" "p256_kyber768"
    ++ both_kinds "kyber1024" "kyber1024" "kyber1024"
    ++ both_kinds "ecp_p521_kyber1024" "p521_kyber1024" "p521_kyber1024"
    ++ both_kinds "bikel1" "bikel1" "bikel1"
    ++ both_kinds "ecp_p256_bikel1" "p256_bikel1" "p256_bikel1"
    ++ both_kinds "ecx_x25519_bikel1" "x25519_bikel1" "x25519_bikel1"
    ++ both_kinds "bikel3" "bikel3" "bikel3"
    ++ both_kinds "ecp_p384_bikel3" "p384_bikel3" "p384_bikel3"
    ++ both_kinds "ecx_x448_bikel3" "x448_bikel3" "x448_bikel3"
    ++ both_kinds "bikel5" "bikel5" "bikel5"
    ++ both_kinds "ecp_p521_bikel5" "p521_bikel5" "p521_bikel5"
    ++ both_kinds "hqc128" "hqc128" "hqc128"
    ++ both_kinds "ecp_p256_hqc128" "p256_hqc128" "p256_hqc128"
    ++ both_kinds "ecx_x25519_hqc128" "x25519_hqc128" "x25519_hqc128"
    ++ both_kinds "hqc192" "hqc192" "hqc192"
    ++ both_kinds "ecp_p384_hqc192" "p384_hqc192" "p384_hqc192"
    ++ both_kinds "ecx_x448_hqc192" "x448_hqc192" "x448_hqc192"
    ++ both_kinds "hqc256" "hqc256" "hqc256"
    ++ both_kinds "ecp_p521_hqc256" "p521_hqc256" "p521_hqc256"
    ++ []

abbrev sig_decoders : List DecoderInstance
sig_decoders =
    both_kinds "dilithium2" "dilithium2" "dilithium2"
    ++ both_kinds "p256_dilithium2" "p256_dilithium2" "p256_dilithium2"
    ++ both_kinds "rsa3072_dilithium2" "rsa3072_dilithium2" "rsa3072_dilithium2"
    ++ both_kinds "dilithium3" "dilithium3" "dilithium3"
    ++ both_kinds "p384_dilithium3" "p384_dilithium3" "p384_dilithium3"
    ++ both_kinds "dilithium5" "dilithium5" "dilithium5"
    ++ both_kinds "p521_dilithium5" "p521_dilithium5" "p521_dilithium5"
    ++ both_kinds "falcon512" "falcon512" "falcon512"
    ++ both_kinds "p256_falcon512" "p256_falcon512" "p256_falcon512"
    ++ both_kinds "rsa3072_falcon512" "rsa3072_falcon512" "rsa3072_falcon512"
    ++ both_kinds "falcon1024" "falcon1024" "falcon1024"
    ++ both_kinds "p521_falcon1024" "p521_falcon1024" "p521_falcon1024"
    ++ both_kinds "sphincssha2128fsimple" "sphincssha2128fsimple" "sphincssha2128fsimple"
    ++ both_kinds "p256_sphincssha2128fsimple" "p256_sphincssha2128fsimple"
        "p256_sphincssha2128fsimple"
    ++ both_kinds "rsa3072_sphincssha2128fsimple" "rsa3072_sphincssha2128fsimple"
        "rsa3072_sphincssha2128fsimple"
    ++ both_kinds "sphincssha2128ssimple" "sphincssha2128ssimple" "sphincssha2128ssimple"
    ++ both_kinds "p256_sphincssha2128ssimple" "p256_sphincssha2128ssimple"
        "p256_sphincssha2128ssimple"
    ++ both_kinds "rsa3072_sphincssha2128ssimple" "rsa3072_sphincssha2128ssimple"
        "rsa3072_sphincssha2128ssimple"
    ++ both_kinds "sphincssha2192fsimple" "sphincssha2192fsimple" "sphincssha2192fsimple"
    ++ both_kinds "p384_sphincssha2192fsimple" "p384_sphincssha2192fsimple"
        "p384_sphincssha2192fsimple"
    ++ both_kinds "sphincsshake128fsimple" "sphincsshake128fsimple" "sphincsshake128fsimple"
    ++ both_kinds "p256_sphincsshake128fsimple" "p256_sphincsshake128fsimple"
        "p256_sphincsshake128fsimple"
    ++ both_kinds "rsa3072_sphincsshake128fsimple" "rsa3072_sphincsshake128fsimple"
        "rsa3072_sphincsshake128fsimple"
    ++ []

-- Those under OQS_KEM_ENCODERS come first.
abbrev pub decoder_instances : Bool → List DecoderInstance
decoder_instances true = kem_decoders ++ sig_decoders
decoder_instances false = sig_decoders

-- The table that a symbol of the decoder names stands for.
abbrev pub find_decoder :
    List DecoderInstance → (keytype : String) → Structure → Option DecoderInstance
find_decoder [] keytype kind = none
find_decoder (d ∷ ds) keytype kind =
    if str_eq d.keytype keytype && same_structure d.kind kind
    then some d
    else find_decoder ds keytype kind
