-- ===== src/Provider/Algorithms.antt =====
-- oqsprov/oqsprov.c: the tables that oqsprovider_query answers with, where liboqs has every algorithm.
use Prim.Native.String.{String}
use oqs_provider.Base.{ℕ, List, [], ◌∷◌}

-- A dispatch table: oqs_signature_functions, oqs_generic_kem_functions, oqs_hybrid_kem_functions, or
-- `oqs_..._keymgmt_functions` by the name between.
pub data Functions : Type 0 where
  signature generic_kem hybrid_kem : Functions
  keymgmt : String → Functions

-- An `OSSL_ALGORITHM`: SECBITS stands in the property `oqsprovider.security_bits`.
pub record Algorithm : Type 0 where
  pub name : String
  pub security_bits : ℕ
  pub functions : Functions

-- SIGALG, KEMBASEALG, KEMHYBALG, KEMKMALG and KEMKMHYBALG
abbrev pub alg : String → ℕ → Functions → Algorithm
alg name bits functions = record { name = name; security_bits = bits; functions = functions }

-- oqsprovider_signatures
abbrev pub signatures : List Algorithm
signatures =
    alg "dilithium2" 128 signature
    ∷ alg "p256_dilithium2" 128 signature
    ∷ alg "rsa3072_dilithium2" 128 signature
    ∷ alg "dilithium3" 192 signature
    ∷ alg "p384_dilithium3" 192 signature
    ∷ alg "dilithium5" 256 signature
    ∷ alg "p521_dilithium5" 256 signature
    ∷ alg "falcon512" 128 signature
    ∷ alg "p256_falcon512" 128 signature
    ∷ alg "rsa3072_falcon512" 128 signature
    ∷ alg "falcon1024" 256 signature
    ∷ alg "p521_falcon1024" 256 signature
    ∷ alg "sphincssha2128fsimple" 128 signature
    ∷ alg "p256_sphincssha2128fsimple" 128 signature
    ∷ alg "rsa3072_sphincssha2128fsimple" 128 signature
    ∷ alg "sphincssha2128ssimple" 128 signature
    ∷ alg "p256_sphincssha2128ssimple" 128 signature
    ∷ alg "rsa3072_sphincssha2128ssimple" 128 signature
    ∷ alg "sphincssha2192fsimple" 192 signature
    ∷ alg "p384_sphincssha2192fsimple" 192 signature
    ∷ alg "sphincsshake128fsimple" 128 signature
    ∷ alg "p256_sphincsshake128fsimple" 128 signature
    ∷ alg "rsa3072_sphincsshake128fsimple" 128 signature
    ∷ []

-- oqsprovider_asym_kems
abbrev pub asym_kems : List Algorithm
asym_kems =
    alg "frodo640aes" 128 generic_kem
    ∷ alg "p256_frodo640aes" 128 hybrid_kem
    ∷ alg "x25519_frodo640aes" 128 hybrid_kem
    ∷ alg "frodo640shake" 128 generic_kem
    ∷ alg "p256_frodo640shake" 128 hybrid_kem
    ∷ alg "x25519_frodo640shake" 128 hybrid_kem
    ∷ alg "frodo976aes" 192 generic_kem
    ∷ alg "p384_frodo976aes" 192 hybrid_kem
    ∷ alg "x448_frodo976aes" 192 hybrid_kem
    ∷ alg "frodo976shake" 192 generic_kem
    ∷ alg "p384_frodo976shake" 192 hybrid_kem
    ∷ alg "x448_frodo976shake" 192 hybrid_kem
    ∷ alg "frodo1344aes" 256 generic_kem
    ∷ alg "p521_frodo1344aes" 256 hybrid_kem
    ∷ alg "frodo1344shake" 256 generic_kem
    ∷ alg "p521_frodo1344shake" 256 hybrid_kem
    ∷ alg "kyber512" 128 generic_kem
    ∷ alg "p256_kyber512" 128 hybrid_kem
    ∷ alg "x25519_kyber512" 128 hybrid_kem
    ∷ alg "kyber768" 192 generic_kem
    ∷ alg "p384_kyber768" 192 hybrid_kem
    ∷ alg "x448_kyber768" 192 hybrid_kem
    ∷ alg "x25519_kyber768" 128 hybrid_kem
    ∷ alg "p256_kyber768" 128 hybrid_kem
    ∷ alg "kyber1024" 256 generic_kem
    ∷ alg "p521_kyber1024" 256 hybrid_kem
    ∷ alg "bikel1" 128 generic_kem
    ∷ alg "p256_bikel1" 128 hybrid_kem
    ∷ alg "x25519_bikel1" 128 hybrid_kem
    ∷ alg "bikel3" 192 generic_kem
    ∷ alg "p384_bikel3" 192 hybrid_kem
    ∷ alg "x448_bikel3" 192 hybrid_kem
    ∷ alg "bikel5" 256 generic_kem
    ∷ alg "p521_bikel5" 256 hybrid_kem
    ∷ alg "hqc128" 128 generic_kem
    ∷ alg "p256_hqc128" 128 hybrid_kem
    ∷ alg "x25519_hqc128" 128 hybrid_kem
    ∷ alg "hqc192" 192 generic_kem
    ∷ alg "p384_hqc192" 192 hybrid_kem
    ∷ alg "x448_hqc192" 192 hybrid_kem
    ∷ alg "hqc256" 256 generic_kem
    ∷ alg "p521_hqc256" 256 hybrid_kem
    ∷ []

-- oqsprovider_keymgmt
abbrev pub keymgmts : List Algorithm
keymgmts =
    alg "dilithium2" 128 (keymgmt "dilithium2")
    ∷ alg "p256_dilithium2" 128 (keymgmt "p256_dilithium2")
    ∷ alg "rsa3072_dilithium2" 128 (keymgmt "rsa3072_dilithium2")
    ∷ alg "dilithium3" 192 (keymgmt "dilithium3")
    ∷ alg "p384_dilithium3" 192 (keymgmt "p384_dilithium3")
    ∷ alg "dilithium5" 256 (keymgmt "dilithium5")
    ∷ alg "p521_dilithium5" 256 (keymgmt "p521_dilithium5")
    ∷ alg "falcon512" 128 (keymgmt "falcon512")
    ∷ alg "p256_falcon512" 128 (keymgmt "p256_falcon512")
    ∷ alg "rsa3072_falcon512" 128 (keymgmt "rsa3072_falcon512")
    ∷ alg "falcon1024" 256 (keymgmt "falcon1024")
    ∷ alg "p521_falcon1024" 256 (keymgmt "p521_falcon1024")
    ∷ alg "sphincssha2128fsimple" 128 (keymgmt "sphincssha2128fsimple")
    ∷ alg "p256_sphincssha2128fsimple" 128 (keymgmt "p256_sphincssha2128fsimple")
    ∷ alg "rsa3072_sphincssha2128fsimple" 128 (keymgmt "rsa3072_sphincssha2128fsimple")
    ∷ alg "sphincssha2128ssimple" 128 (keymgmt "sphincssha2128ssimple")
    ∷ alg "p256_sphincssha2128ssimple" 128 (keymgmt "p256_sphincssha2128ssimple")
    ∷ alg "rsa3072_sphincssha2128ssimple" 128 (keymgmt "rsa3072_sphincssha2128ssimple")
    ∷ alg "sphincssha2192fsimple" 192 (keymgmt "sphincssha2192fsimple")
    ∷ alg "p384_sphincssha2192fsimple" 192 (keymgmt "p384_sphincssha2192fsimple")
    ∷ alg "sphincsshake128fsimple" 128 (keymgmt "sphincsshake128fsimple")
    ∷ alg "p256_sphincsshake128fsimple" 128 (keymgmt "p256_sphincsshake128fsimple")
    ∷ alg "rsa3072_sphincsshake128fsimple" 128 (keymgmt "rsa3072_sphincsshake128fsimple")
    ∷ alg "frodo640aes" 128 (keymgmt "frodo640aes")
    ∷ alg "p256_frodo640aes" 128 (keymgmt "ecp_p256_frodo640aes")
    ∷ alg "x25519_frodo640aes" 128 (keymgmt "ecx_x25519_frodo640aes")
    ∷ alg "frodo640shake" 128 (keymgmt "frodo640shake")
    ∷ alg "p256_frodo640shake" 128 (keymgmt "ecp_p256_frodo640shake")
    ∷ alg "x25519_frodo640shake" 128 (keymgmt "ecx_x25519_frodo640shake")
    ∷ alg "frodo976aes" 192 (keymgmt "frodo976aes")
    ∷ alg "p384_frodo976aes" 192 (keymgmt "ecp_p384_frodo976aes")
    ∷ alg "x448_frodo976aes" 192 (keymgmt "ecx_x448_frodo976aes")
    ∷ alg "frodo976shake" 192 (keymgmt "frodo976shake")
    ∷ alg "p384_frodo976shake" 192 (keymgmt "ecp_p384_frodo976shake")
    ∷ alg "x448_frodo976shake" 192 (keymgmt "ecx_x448_frodo976shake")
    ∷ alg "frodo1344aes" 256 (keymgmt "frodo1344aes")
    ∷ alg "p521_frodo1344aes" 256 (keymgmt "ecp_p521_frodo1344aes")
    ∷ alg "frodo1344shake" 256 (keymgmt "frodo1344shake")
    ∷ alg "p521_frodo1344shake" 256 (keymgmt "ecp_p521_frodo1344shake")
    ∷ alg "kyber512" 128 (keymgmt "kyber512")
    ∷ alg "p256_kyber512" 128 (keymgmt "ecp_p256_kyber512")
    ∷ alg "x25519_kyber512" 128 (keymgmt "ecx_x25519_kyber512")
    ∷ alg "kyber768" 192 (keymgmt "kyber768")
    ∷ alg "p384_kyber768" 192 (keymgmt "ecp_p384_kyber768")
    ∷ alg "x448_kyber768" 192 (keymgmt "ecx_x448_kyber768")
    ∷ alg "x25519_kyber768" 128 (keymgmt "ecx_x25519_kyber768")
    ∷ alg "p256_kyber768" 128 (keymgmt "ecp_p256_kyber768")
    ∷ alg "kyber1024" 256 (keymgmt "kyber1024")
    ∷ alg "p521_kyber1024" 256 (keymgmt "ecp_p521_kyber1024")
    ∷ alg "bikel1" 128 (keymgmt "bikel1")
    ∷ alg "p256_bikel1" 128 (keymgmt "ecp_p256_bikel1")
    ∷ alg "x25519_bikel1" 128 (keymgmt "ecx_x25519_bikel1")
    ∷ alg "bikel3" 192 (keymgmt "bikel3")
    ∷ alg "p384_bikel3" 192 (keymgmt "ecp_p384_bikel3")
    ∷ alg "x448_bikel3" 192 (keymgmt "ecx_x448_bikel3")
    ∷ alg "bikel5" 256 (keymgmt "bikel5")
    ∷ alg "p521_bikel5" 256 (keymgmt "ecp_p521_bikel5")
    ∷ alg "hqc128" 128 (keymgmt "hqc128")
    ∷ alg "p256_hqc128" 128 (keymgmt "ecp_p256_hqc128")
    ∷ alg "x25519_hqc128" 128 (keymgmt "ecx_x25519_hqc128")
    ∷ alg "hqc192" 192 (keymgmt "hqc192")
    ∷ alg "p384_hqc192" 192 (keymgmt "ecp_p384_hqc192")
    ∷ alg "x448_hqc192" 192 (keymgmt "ecx_x448_hqc192")
    ∷ alg "hqc256" 256 (keymgmt "hqc256")
    ∷ alg "p521_hqc256" 256 (keymgmt "ecp_p521_hqc256")
    ∷ []
