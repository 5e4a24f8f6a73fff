-- ===== src/KeyMgmt/Constructors.antt =====
-- oqsprov/oqs_kmgmt.c: the two constructors of each algorithm, by the name of its dispatch table.
pub mod Agreement
use Prim.Native.String.{String}
use oqs_provider.Base.{ℕ, Option, none, some, List, [], ◌∷◌, ◌++◌}
use oqs_provider.Extern.{
  OqsName, bike_l1, bike_l3, bike_l5, dilithium_2, dilithium_3, dilithium_5, falcon_1024,
  falcon_512, frodokem_1344_aes, frodokem_1344_shake, frodokem_640_aes, frodokem_640_shake,
  frodokem_976_aes, frodokem_976_shake, hqc_128, hqc_192, hqc_256, kyber_1024, kyber_512, kyber_768,
  sphincs_sha2_128f_simple, sphincs_sha2_128s_simple, sphincs_sha2_192f_simple,
  sphincs_shake_128f_simple,
}
use oqs_provider.Key.{KeyType, sig, kem, ecp_hyb_kem, ecx_hyb_kem, hyb_sig}

-- What a constructor hands to oqsx_key_new or oqsx_gen_init; `none` for the index -1. The KEY_TYPE_SIG of a
-- generation context is written 0.
pub record Arguments : Type 0 where
  pub oqs_name : OqsName
  pub tls_name : String
  pub primitive : KeyType
  pub bit_security : ℕ
  pub alg_idx : Option ℕ

pub record Constructors : Type 0 where
  pub functions : String
  pub new_key : Arguments
  pub gen_init : Arguments

abbrev pub arguments : OqsName → String → KeyType → ℕ → Option ℕ → Arguments
arguments oqs_name tls_name primitive bits idx = record {
  oqs_name = oqs_name;
  tls_name = tls_name;
  primitive = primitive;
  bit_security = bits;
  alg_idx = idx;
}

-- MAKE_SIG_KEYMGMT_FUNCTIONS, with the two functions that it names.
abbrev pub sig_functions : String → (new_key gen_init : Arguments) → Constructors
sig_functions alg new_key gen_init = record {
  functions = alg;
  new_key = new_key;
  gen_init = gen_init;
}

-- The constructors of MAKE_KEM_KEYMGMT_FUNCTIONS, MAKE_KEM_ECP_KEYMGMT_FUNCTIONS and
-- MAKE_KEM_ECX_KEYMGMT_FUNCTIONS, with the name that the macro gives the table.
abbrev kem_functions : (functions tokalg : String) → KeyType → OqsName → ℕ → Constructors
kem_functions functions tokalg type tokoqsalg bits =
    sig_functions functions (arguments tokoqsalg tokalg type bits none)
      (arguments tokoqsalg tokalg type bits none)

abbrev base : String → OqsName → ℕ → Constructors
base tokalg tokoqsalg bits = kem_functions tokalg tokalg kem tokoqsalg bits

abbrev ecp : (functions tokalg : String) → OqsName → ℕ → Constructors
ecp functions tokalg tokoqsalg bits = kem_functions functions tokalg ecp_hyb_kem tokoqsalg bits

abbrev ecx : (functions tokalg : String) → OqsName → ℕ → Constructors
ecx functions tokalg tokoqsalg bits = kem_functions functions tokalg ecx_hyb_kem tokoqsalg bits

-- The functions of the Dilithium, Falcon and SPHINCS+ algorithms, each with its table.
abbrev dilithium_constructors : List Constructors
dilithium_constructors =
    sig_functions "dilithium2" (arguments dilithium_2 "dilithium2" sig 128 (some 0))
      (arguments dilithium_2 "dilithium2" sig 128 (some 0))
    ∷ sig_functions "p256_dilithium2" (arguments dilithium_2 "p256_dilithium2" hyb_sig 128 (some 1))
        (arguments dilithium_2 "p256_dilithium2" hyb_sig 128 (some 1))
    ∷ sig_functions "rsa3072_dilithium2"
        (arguments dilithium_2 "rsa3072_dilithium2" hyb_sig 128 (some 2))
        (arguments dilithium_2 "rsa3072_dilithium2" hyb_sig 128 (some 2))
    ∷ sig_functions "dilithium3" (arguments dilithium_3 "dilithium3" sig 192 (some 3))
        (arguments dilithium_3 "dilithium3" sig 192 (some 3))
    ∷ sig_functions "p384_dilithium3" (arguments dilithium_3 "p384_dilithium3" hyb_sig 192 (some 4))
        (arguments dilithium_3 "p384_dilithium3" hyb_sig 192 (some 4))
    ∷ sig_functions "dilithium5" (arguments dilithium_5 "dilithium5" sig 256 (some 5))
        (arguments dilithium_5 "dilithium5" sig 256 (some 5))
    ∷ sig_functions "p521_dilithium5" (arguments dilithium_5 "p521_dilithium5" hyb_sig 256 (some 6))
        (arguments dilithium_5 "p521_dilithium5" hyb_sig 256 (some 6))
    ∷ []

abbrev falcon_constructors : List Constructors
falcon_constructors =
    sig_functions "falcon512" (arguments falcon_512 "falcon512" sig 128 (some 7))
      (arguments falcon_512 "falcon512" sig 128 (some 7))
    ∷ sig_functions "p256_falcon512" (arguments falcon_512 "p256_falcon512" hyb_sig 128 (some 8))
        (arguments falcon_512 "p256_falcon512" hyb_sig 128 (some 8))
    ∷ sig_functions "rsa3072_falcon512"
        (arguments falcon_512 "rsa3072_falcon512" hyb_sig 128 (some 9))
        (arguments falcon_512 "rsa3072_falcon512" hyb_sig 128 (some 9))
    ∷ sig_functions "falcon1024" (arguments falcon_1024 "falcon1024" sig 256 (some 10))
        (arguments falcon_1024 "falcon1024" sig 256 (some 10))
    ∷ sig_functions "p521_falcon1024"
        (arguments falcon_1024 "p521_falcon1024" hyb_sig 256 (some 11))
        (arguments falcon_1024 "p521_falcon1024" hyb_sig 256 (some 11))
    ∷ []

abbrev sphincs_constructors : List Constructors
sphincs_constructors =
    sig_functions "sphincssha2128fsimple"
      (arguments sphincs_sha2_128f_simple "sphincssha2128fsimple" sig 128 (some 12))
      (arguments sphincs_sha2_128f_simple "sphincssha2128fsimple" sig 128 (some 12))
    ∷ sig_functions "p256_sphincssha2128fsimple"
        (arguments sphincs_sha2_128f_simple "p256_sphincssha2128fsimple" hyb_sig 128 (some 13))
        (arguments sphincs_sha2_128f_simple "p256_sphincssha2128fsimple" hyb_sig 128 (some 13))
    ∷ sig_functions "rsa3072_sphincssha2128fsimple"
        (arguments sphincs_sha2_128f_simple "rsa3072_sphincssha2128fsimple" hyb_sig 128 (some 14))
        (arguments sphincs_sha2_128f_simple "rsa3072_sphincssha2128fsimple" hyb_sig 128 (some 14))
    ∷ sig_functions "sphincssha2128ssimple"
        (arguments sphincs_sha2_128s_simple "sphincssha2128ssimple" sig 128 (some 15))
        (arguments sphincs_sha2_128s_simple "sphincssha2128ssimple" sig 128 (some 15))
    ∷ sig_functions "p256_sphincssha2128ssimple"
        (arguments sphincs_sha2_128s_simple "p256_sphincssha2128ssimple" hyb_sig 128 (some 16))
        (arguments sphincs_sha2_128s_simple "p256_sphincssha2128ssimple" hyb_sig 128 (some 16))
    ∷ sig_functions "rsa3072_sphincssha2128ssimple"
        (arguments sphincs_sha2_128s_simple "rsa3072_sphincssha2128ssimple" hyb_sig 128 (some 17))
        (arguments sphincs_sha2_128s_simple "rsa3072_sphincssha2128ssimple" hyb_sig 128 (some 17))
    ∷ sig_functions "sphincssha2192fsimple"
        (arguments sphincs_sha2_192f_simple "sphincssha2192fsimple" sig 192 (some 18))
        (arguments sphincs_sha2_192f_simple "sphincssha2192fsimple" sig 192 (some 18))
    ∷ sig_functions "p384_sphincssha2192fsimple"
        (arguments sphincs_sha2_192f_simple "p384_sphincssha2192fsimple" hyb_sig 192 (some 19))
        (arguments sphincs_sha2_192f_simple "p384_sphincssha2192fsimple" hyb_sig 192 (some 19))
    ∷ sig_functions "sphincsshake128fsimple"
        (arguments sphincs_shake_128f_simple "sphincsshake128fsimple" sig 128 (some 20))
        (arguments sphincs_shake_128f_simple "sphincsshake128fsimple" sig 128 (some 20))
    ∷ sig_functions "p256_sphincsshake128fsimple"
        (arguments sphincs_shake_128f_simple "p256_sphincsshake128fsimple" hyb_sig 128 (some 21))
        (arguments sphincs_shake_128f_simple "p256_sphincsshake128fsimple" hyb_sig 128 (some 21))
    ∷ sig_functions "rsa3072_sphincsshake128fsimple"
        (arguments sphincs_shake_128f_simple "rsa3072_sphincsshake128fsimple" hyb_sig 128 (some 22))
        (arguments sphincs_shake_128f_simple "rsa3072_sphincsshake128fsimple" hyb_sig 128 (some 22))
    ∷ []

abbrev pub sig_constructors : List Constructors
sig_constructors = dilithium_constructors ++ falcon_constructors ++ sphincs_constructors

abbrev pub kem_constructors : List Constructors
kem_constructors =
    base "frodo640aes" frodokem_640_aes 128
    ∷ ecp "ecp_p256_frodo640aes" "p256_frodo640aes" frodokem_640_aes 128
    ∷ ecx "ecx_x25519_frodo640aes" "x25519_frodo640aes" frodokem_640_aes 128
    ∷ base "frodo640shake" frodokem_640_shake 128
    ∷ ecp "ecp_p256_frodo640shake" "p256_frodo640shake" frodokem_640_shake 128
    ∷ ecx "ecx_x25519_frodo640shake" "x25519_frodo640shake" frodokem_640_shake 128
    ∷ base "frodo976aes" frodokem_976_aes 192
    ∷ ecp "ecp_p384_frodo976aes" "p384_frodo976aes" frodokem_976_aes 192
    ∷ ecx "ecx_x448_frodo976aes" "x448_frodo976aes" frodokem_976_aes 192
    ∷ base "frodo976shake" frodokem_976_shake 192
    ∷ ecp "ecp_p384_frodo976shake" "p384_frodo976shake" frodokem_976_shake 192
    ∷ ecx "ecx_x448_frodo976shake" "x448_frodo976shake" frodokem_976_shake 192
    ∷ base "frodo1344aes" frodokem_1344_aes 256
    ∷ ecp "ecp_p521_frodo1344aes" "p521_frodo1344aes" frodokem_1344_aes 256
    ∷ base "frodo1344shake" frodokem_1344_shake 256
    ∷ ecp "ecp_p521_frodo1344shake" "p521_frodo1344shake" frodokem_1344_shake 256
    ∷ base "kyber512" kyber_512 128
    ∷ ecp "ecp_p256_kyber512" "p256_kyber512" kyber_512 128
    ∷ ecx "ecx_x25519_kyber512" "x25519_kyber512" kyber_512 128
    ∷ base "kyber768" kyber_768 192
    ∷ ecp "ecp_p384_kyber768" "p384_kyber768" kyber_768 192
    ∷ ecx "ecx_x448_kyber768" "x448_kyber768" kyber_768 192
    ∷ ecx "ecx_x25519_kyber768" "x25519_kyber768" kyber_768 128
    ∷ ecp "ecp_p256_kyber768" "p256_kyber768" kyber_768 128
    ∷ base "kyber1024" kyber_1024 256
    ∷ ecp "ecp_p521_kyber1024" "p521_kyber1024" kyber_1024 256
    ∷ base "bikel1" bike_l1 128
    ∷ ecp "ecp_p256_bikel1" "p256_bikel1" bike_l1 128
    ∷ ecx "ecx_x25519_bikel1" "x25519_bikel1" bike_l1 128
    ∷ base "bikel3" bike_l3 192
    ∷ ecp "ecp_p384_bikel3" "p384_bikel3" bike_l3 192
    ∷ ecx "ecx_x448_bikel3" "x448_bikel3" bike_l3 192
    ∷ base "bikel5" bike_l5 256
    ∷ ecp "ecp_p521_bikel5" "p521_bikel5" bike_l5 256
    ∷ base "hqc128" hqc_128 128
    ∷ ecp "ecp_p256_hqc128" "p256_hqc128" hqc_128 128
    ∷ ecx "ecx_x25519_hqc128" "x25519_hqc128" hqc_128 128
    ∷ base "hqc192" hqc_192 192
    ∷ ecp "ecp_p384_hqc192" "p384_hqc192" hqc_192 192
    ∷ ecx "ecx_x448_hqc192" "x448_hqc192" hqc_192 192
    ∷ base "hqc256" hqc_256 256
    ∷ ecp "ecp_p521_hqc256" "p521_hqc256" hqc_256 256
    ∷ []

abbrev pub constructors : List Constructors
constructors = sig_constructors ++ kem_constructors
