-- ===== src/Provider/Oids.antt =====
-- oqsprov/oqsprov.c: the object identifiers of the algorithms, and the variables of the environment that take
-- their place.
pub mod Patched
use Prim.Native.String.{String}
use oqs_provider.Base.{ℕ, ◌+◌, Bool, true, false, List, [], ◌∷◌, ◌++◌}
use oqs_provider.Env.{GetEnv, patch}

-- Identifiers and names in turn, under OQS_KEM_ENCODERS and in every build.
abbrev pub kem_oids : List String
kem_oids =
    "1.3.9999.99.13" ∷ "frodo640aes" ∷ "1.3.9999.99.12" ∷ "p256_frodo640aes" ∷ "1.3.9999.99.1"
    ∷ "x25519_frodo640aes" ∷ "1.3.9999.99.15" ∷ "frodo640shake" ∷ "1.3.9999.99.14"
    ∷ "p256_frodo640shake" ∷ "1.3.9999.99.2" ∷ "x25519_frodo640shake" ∷ "1.3.9999.99.17"
    ∷ "frodo976aes" ∷ "1.3.9999.99.16" ∷ "p384_frodo976aes" ∷ "1.3.9999.99.3" ∷ "x448_frodo976aes"
    ∷ "1.3.9999.99.19" ∷ "frodo976shake" ∷ "1.3.9999.99.18" ∷ "p384_frodo976shake" ∷ "1.3.9999.99.4"
    ∷ "x448_frodo976shake" ∷ "1.3.9999.99.21" ∷ "frodo1344aes" ∷ "1.3.9999.99.20"
    ∷ "p521_frodo1344aes" ∷ "1.3.9999.99.23" ∷ "frodo1344shake" ∷ "1.3.9999.99.22"
    ∷ "p521_frodo1344shake" ∷ "1.3.6.1.4.1.22554.5.6.1" ∷ "kyber512" ∷ "1.3.6.1.4.1.22554.5.7.1"
    ∷ "p256_kyber512" ∷ "1.3.6.1.4.1.22554.5.8.1" ∷ "x25519_kyber512" ∷ "1.3.6.1.4.1.22554.5.6.2"
    ∷ "kyber768" ∷ "1.3.9999.99.24" ∷ "p384_kyber768" ∷ "1.3.9999.99.5" ∷ "x448_kyber768"
    ∷ "1.3.9999.99.6" ∷ "x25519_kyber768" ∷ "1.3.9999.99.7" ∷ "p256_kyber768"
    ∷ "1.3.6.1.4.1.22554.5.6.3" ∷ "kyber1024" ∷ "1.3.9999.99.25" ∷ "p521_kyber1024"
    ∷ "1.3.9999.99.27" ∷ "bikel1" ∷ "1.3.9999.99.26" ∷ "p256_bikel1" ∷ "1.3.9999.99.8"
    ∷ "x25519_bikel1" ∷ "1.3.9999.99.29" ∷ "bikel3" ∷ "1.3.9999.99.28" ∷ "p384_bikel3"
    ∷ "1.3.9999.99.9" ∷ "x448_bikel3" ∷ "1.3.9999.99.31" ∷ "bikel5" ∷ "1.3.9999.99.30"
    ∷ "p521_bikel5" ∷ "1.3.9999.99.33" ∷ "hqc128" ∷ "1.3.9999.99.32" ∷ "p256_hqc128"
    ∷ "1.3.9999.99.10" ∷ "x25519_hqc128" ∷ "1.3.9999.99.35" ∷ "hqc192" ∷ "1.3.9999.99.34"
    ∷ "p384_hqc192" ∷ "1.3.9999.99.11" ∷ "x448_hqc192" ∷ "1.3.9999.99.37" ∷ "hqc256"
    ∷ "1.3.9999.99.36" ∷ "p521_hqc256" ∷ []

abbrev pub sig_oids : List String
sig_oids =
    "1.3.6.1.4.1.2.267.7.4.4" ∷ "dilithium2" ∷ "1.3.9999.2.7.1" ∷ "p256_dilithium2"
    ∷ "1.3.9999.2.7.2" ∷ "rsa3072_dilithium2" ∷ "1.3.6.1.4.1.2.267.7.6.5" ∷ "dilithium3"
    ∷ "1.3.9999.2.7.3" ∷ "p384_dilithium3" ∷ "1.3.6.1.4.1.2.267.7.8.7" ∷ "dilithium5"
    ∷ "1.3.9999.2.7.4" ∷ "p521_dilithium5" ∷ "1.3.9999.3.6" ∷ "falcon512" ∷ "1.3.9999.3.7"
    ∷ "p256_falcon512" ∷ "1.3.9999.3.8" ∷ "rsa3072_falcon512" ∷ "1.3.9999.3.9" ∷ "falcon1024"
    ∷ "1.3.9999.3.10" ∷ "p521_falcon1024" ∷ "1.3.9999.6.4.13" ∷ "sphincssha2128fsimple"
    ∷ "1.3.9999.6.4.14" ∷ "p256_sphincssha2128fsimple" ∷ "1.3.9999.6.4.15"
    ∷ "rsa3072_sphincssha2128fsimple" ∷ "1.3.9999.6.4.16" ∷ "sphincssha2128ssimple"
    ∷ "1.3.9999.6.4.17" ∷ "p256_sphincssha2128ssimple" ∷ "1.3.9999.6.4.18"
    ∷ "rsa3072_sphincssha2128ssimple" ∷ "1.3.9999.6.5.10" ∷ "sphincssha2192fsimple"
    ∷ "1.3.9999.6.5.11" ∷ "p384_sphincssha2192fsimple" ∷ "1.3.9999.6.7.13"
    ∷ "sphincsshake128fsimple" ∷ "1.3.9999.6.7.14" ∷ "p256_sphincsshake128fsimple"
    ∷ "1.3.9999.6.7.15" ∷ "rsa3072_sphincsshake128fsimple" ∷ []

-- oqs_oid_alg_list
abbrev pub oid_alg_list : Bool → List String
oid_alg_list true = kem_oids ++ sig_oids
oid_alg_list false = sig_oids

-- The variables that oqs_patch_oids asks for, with their places in the list; those of the signatures stand
-- OQS_KEMOID_CNT behind.
abbrev pub kem_variables : List (String × ℕ)
kem_variables =
    ("OQS_OID_FRODO640AES", 0)
    ∷ ("OQS_OID_P256_FRODO640AES", 2)
    ∷ ("OQS_OID_X25519_FRODO640AES", 4)
    ∷ ("OQS_OID_FRODO640SHAKE", 6)
    ∷ ("OQS_OID_P256_FRODO640SHAKE", 8)
    ∷ ("OQS_OID_X25519_FRODO640SHAKE", 10)
    ∷ ("OQS_OID_FRODO976AES", 12)
    ∷ ("OQS_OID_P384_FRODO976AES", 14)
    ∷ ("OQS_OID_X448_FRODO976AES", 16)
    ∷ ("OQS_OID_FRODO976SHAKE", 18)
    ∷ ("OQS_OID_P384_FRODO976SHAKE", 20)
    ∷ ("OQS_OID_X448_FRODO976SHAKE", 22)
    ∷ ("OQS_OID_FRODO1344AES", 24)
    ∷ ("OQS_OID_P521_FRODO1344AES", 26)
    ∷ ("OQS_OID_FRODO1344SHAKE", 28)
    ∷ ("OQS_OID_P521_FRODO1344SHAKE", 30)
    ∷ ("OQS_OID_KYBER512", 32)
    ∷ ("OQS_OID_P256_KYBER512", 34)
    ∷ ("OQS_OID_X25519_KYBER512", 36)
    ∷ ("OQS_OID_KYBER768", 38)
    ∷ ("OQS_OID_P384_KYBER768", 40)
    ∷ ("OQS_OID_X448_KYBER768", 42)
    ∷ ("OQS_OID_X25519_KYBER768", 44)
    ∷ ("OQS_OID_P256_KYBER768", 46)
    ∷ ("OQS_OID_KYBER1024", 48)
    ∷ ("OQS_OID_P521_KYBER1024", 50)
    ∷ ("OQS_OID_BIKEL1", 52)
    ∷ ("OQS_OID_P256_BIKEL1", 54)
    ∷ ("OQS_OID_X25519_BIKEL1", 56)
    ∷ ("OQS_OID_BIKEL3", 58)
    ∷ ("OQS_OID_P384_BIKEL3", 60)
    ∷ ("OQS_OID_X448_BIKEL3", 62)
    ∷ ("OQS_OID_BIKEL5", 64)
    ∷ ("OQS_OID_P521_BIKEL5", 66)
    ∷ ("OQS_OID_HQC128", 68)
    ∷ ("OQS_OID_P256_HQC128", 70)
    ∷ ("OQS_OID_X25519_HQC128", 72)
    ∷ ("OQS_OID_HQC192", 74)
    ∷ ("OQS_OID_P384_HQC192", 76)
    ∷ ("OQS_OID_X448_HQC192", 78)
    ∷ ("OQS_OID_HQC256", 80)
    ∷ ("OQS_OID_P521_HQC256", 82)
    ∷ []

abbrev pub sig_variables : (kemoid_cnt : ℕ) → List (String × ℕ)
sig_variables cnt =
    ("OQS_OID_DILITHIUM2", 0 + cnt)
    ∷ ("OQS_OID_P256_DILITHIUM2", 2 + cnt)
    ∷ ("OQS_OID_RSA3072_DILITHIUM2", 4 + cnt)
    ∷ ("OQS_OID_DILITHIUM3", 6 + cnt)
    ∷ ("OQS_OID_P384_DILITHIUM3", 8 + cnt)
    ∷ ("OQS_OID_DILITHIUM5", 10 + cnt)
    ∷ ("OQS_OID_P521_DILITHIUM5", 12 + cnt)
    ∷ ("OQS_OID_FALCON512", 14 + cnt)
    ∷ ("OQS_OID_P256_FALCON512", 16 + cnt)
    ∷ ("OQS_OID_RSA3072_FALCON512", 18 + cnt)
    ∷ ("OQS_OID_FALCON1024", 20 + cnt)
    ∷ ("OQS_OID_P521_FALCON1024", 22 + cnt)
    ∷ ("OQS_OID_SPHINCSSHA2128FSIMPLE", 24 + cnt)
    ∷ ("OQS_OID_P256_SPHINCSSHA2128FSIMPLE", 26 + cnt)
    ∷ ("OQS_OID_RSA3072_SPHINCSSHA2128FSIMPLE", 28 + cnt)
    ∷ ("OQS_OID_SPHINCSSHA2128SSIMPLE", 30 + cnt)
    ∷ ("OQS_OID_P256_SPHINCSSHA2128SSIMPLE", 32 + cnt)
    ∷ ("OQS_OID_RSA3072_SPHINCSSHA2128SSIMPLE", 34 + cnt)
    ∷ ("OQS_OID_SPHINCSSHA2192FSIMPLE", 36 + cnt)
    ∷ ("OQS_OID_P384_SPHINCSSHA2192FSIMPLE", 38 + cnt)
    ∷ ("OQS_OID_SPHINCSSHAKE128FSIMPLE", 40 + cnt)
    ∷ ("OQS_OID_P256_SPHINCSSHAKE128FSIMPLE", 42 + cnt)
    ∷ ("OQS_OID_RSA3072_SPHINCSSHAKE128FSIMPLE", 44 + cnt)
    ∷ []

-- oqs_patch_oids, which always returns 1.
unfoldable pub patch_oids : GetEnv → (kem_encoders : Bool) → List String → List String
patch_oids getenv true list =
    patch getenv (λ value oid. value) (sig_variables 84)
      (patch getenv (λ value oid. value) kem_variables list)
patch_oids getenv false list = patch getenv (λ value oid. value) (sig_variables 0) list
