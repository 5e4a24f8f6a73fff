-- ===== src/Capabilities/Groups.antt =====
-- oqsprov/oqsprov_capabilities.c: the TLS groups, where liboqs has every KEM.
use Prim.Native.String.{String}
use oqs_provider.Base.{ℕ, Option, none, some, List, [], ◌∷◌}

-- `OQS_GROUP_CONSTANTS`: `none` for the -1 of a version that is not supported. TLS1_3_VERSION is 772.
pub record GroupConstants : Type 0 where
  pub group_id : ℕ
  pub secbits : ℕ
  pub mintls : Option ℕ
  pub maxtls : Option ℕ
  pub mindtls : Option ℕ
  pub maxdtls : Option ℕ
  pub is_kem : ℕ

abbrev pub group : ℕ → ℕ → GroupConstants
group id bits = record {
  group_id = id;
  secbits = bits;
  mintls = some 772;
  maxtls = some 0;
  mindtls = none;
  maxdtls = none;
  is_kem = 1;
}

-- oqs_group_list
abbrev pub group_list : List GroupConstants
group_list =
    group 512 128
    ∷ group 12032 128
    ∷ group 12160 128
    ∷ group 513 128
    ∷ group 12033 128
    ∷ group 12161 128
    ∷ group 514 192
    ∷ group 12034 192
    ∷ group 12162 192
    ∷ group 515 192
    ∷ group 12035 192
    ∷ group 12163 192
    ∷ group 516 256
    ∷ group 12036 256
    ∷ group 517 256
    ∷ group 12037 256
    ∷ group 570 128
    ∷ group 12090 128
    ∷ group 12089 128
    ∷ group 572 192
    ∷ group 12092 192
    ∷ group 12176 192
    ∷ group 25497 192
    ∷ group 25498 192
    ∷ group 573 256
    ∷ group 12093 256
    ∷ group 577 128
    ∷ group 12097 128
    ∷ group 12206 128
    ∷ group 578 192
    ∷ group 12098 192
    ∷ group 12207 192
    ∷ group 579 256
    ∷ group 12099 256
    ∷ group 556 128
    ∷ group 12076 128
    ∷ group 12204 128
    ∷ group 557 192
    ∷ group 12077 192
    ∷ group 12205 192
    ∷ group 558 256
    ∷ group 12078 256
    ∷ []

-- OQS_GROUP_ENTRY: three names, and the place of the constants that the entry points to.
pub record GroupEntry : Type 0 where
  pub tlsname : String
  pub realname : String
  pub algorithm : String
  pub idx : ℕ

abbrev pub group_entry : String → String → String → ℕ → GroupEntry
group_entry tlsname realname algorithm idx = record {
  tlsname = tlsname;
  realname = realname;
  algorithm = algorithm;
  idx = idx;
}

-- oqs_param_group_list
abbrev pub group_entries : List GroupEntry
group_entries =
    group_entry "frodo640aes" "frodo640aes" "frodo640aes" 0
    ∷ group_entry "p256_frodo640aes" "p256_frodo640aes" "p256_frodo640aes" 1
    ∷ group_entry "x25519_frodo640aes" "x25519_frodo640aes" "x25519_frodo640aes" 2
    ∷ group_entry "frodo640shake" "frodo640shake" "frodo640shake" 3
    ∷ group_entry "p256_frodo640shake" "p256_frodo640shake" "p256_frodo640shake" 4
    ∷ group_entry "x25519_frodo640shake" "x25519_frodo640shake" "x25519_frodo640shake" 5
    ∷ group_entry "frodo976aes" "frodo976aes" "frodo976aes" 6
    ∷ group_entry "p384_frodo976aes" "p384_frodo976aes" "p384_frodo976aes" 7
    ∷ group_entry "x448_frodo976aes" "x448_frodo976aes" "x448_frodo976aes" 8
    ∷ group_entry "frodo976shake" "frodo976shake" "frodo976shake" 9
    ∷ group_entry "p384_frodo976shake" "p384_frodo976shake" "p384_frodo976shake" 10
    ∷ group_entry "x448_frodo976shake" "x448_frodo976shake" "x448_frodo976shake" 11
    ∷ group_entry "frodo1344aes" "frodo1344aes" "frodo1344aes" 12
    ∷ group_entry "p521_frodo1344aes" "p521_frodo1344aes" "p521_frodo1344aes" 13
    ∷ group_entry "frodo1344shake" "frodo1344shake" "frodo1344shake" 14
    ∷ group_entry "p521_frodo1344shake" "p521_frodo1344shake" "p521_frodo1344shake" 15
    ∷ group_entry "kyber512" "kyber512" "kyber512" 16
    ∷ group_entry "p256_kyber512" "p256_kyber512" "p256_kyber512" 17
    ∷ group_entry "x25519_kyber512" "x25519_kyber512" "x25519_kyber512" 18
    ∷ group_entry "kyber768" "kyber768" "kyber768" 19
    ∷ group_entry "p384_kyber768" "p384_kyber768" "p384_kyber768" 20
    ∷ group_entry "x448_kyber768" "x448_kyber768" "x448_kyber768" 21
    ∷ group_entry "x25519_kyber768" "x25519_kyber768" "x25519_kyber768" 22
    ∷ group_entry "p256_kyber768" "p256_kyber768" "p256_kyber768" 23
    ∷ group_entry "kyber1024" "kyber1024" "kyber1024" 24
    ∷ group_entry "p521_kyber1024" "p521_kyber1024" "p521_kyber1024" 25
    ∷ group_entry "bikel1" "bikel1" "bikel1" 26
    ∷ group_entry "p256_bikel1" "p256_bikel1" "p256_bikel1" 27
    ∷ group_entry "x25519_bikel1" "x25519_bikel1" "x25519_bikel1" 28
    ∷ group_entry "bikel3" "bikel3" "bikel3" 29
    ∷ group_entry "p384_bikel3" "p384_bikel3" "p384_bikel3" 30
    ∷ group_entry "x448_bikel3" "x448_bikel3" "x448_bikel3" 31
    ∷ group_entry "bikel5" "bikel5" "bikel5" 32
    ∷ group_entry "p521_bikel5" "p521_bikel5" "p521_bikel5" 33
    ∷ group_entry "hqc128" "hqc128" "hqc128" 34
    ∷ group_entry "p256_hqc128" "p256_hqc128" "p256_hqc128" 35
    ∷ group_entry "x25519_hqc128" "x25519_hqc128" "x25519_hqc128" 36
    ∷ group_entry "hqc192" "hqc192" "hqc192" 37
    ∷ group_entry "p384_hqc192" "p384_hqc192" "p384_hqc192" 38
    ∷ group_entry "x448_hqc192" "x448_hqc192" "x448_hqc192" 39
    ∷ group_entry "hqc256" "hqc256" "hqc256" 40
    ∷ group_entry "p521_hqc256" "p521_hqc256" "p521_hqc256" 41
    ∷ []

-- The variables that oqs_patch_codepoints asks for, with their places in oqs_group_list.
abbrev pub group_variables : List (String × ℕ)
group_variables =
    ("OQS_CODEPOINT_FRODO640AES", 0)
    ∷ ("OQS_CODEPOINT_P256_FRODO640AES", 1)
    ∷ ("OQS_CODEPOINT_X25519_FRODO640AES", 2)
    ∷ ("OQS_CODEPOINT_FRODO640SHAKE", 3)
    ∷ ("OQS_CODEPOINT_P256_FRODO640SHAKE", 4)
    ∷ ("OQS_CODEPOINT_X25519_FRODO640SHAKE", 5)
    ∷ ("OQS_CODEPOINT_FRODO976AES", 6)
    ∷ ("OQS_CODEPOINT_P384_FRODO976AES", 7)
    ∷ ("OQS_CODEPOINT_X448_FRODO976AES", 8)
    ∷ ("OQS_CODEPOINT_FRODO976SHAKE", 9)
    ∷ ("OQS_CODEPOINT_P384_FRODO976SHAKE", 10)
    ∷ ("OQS_CODEPOINT_X448_FRODO976SHAKE", 11)
    ∷ ("OQS_CODEPOINT_FRODO1344AES", 12)
    ∷ ("OQS_CODEPOINT_P521_FRODO1344AES", 13)
    ∷ ("OQS_CODEPOINT_FRODO1344SHAKE", 14)
    ∷ ("OQS_CODEPOINT_P521_FRODO1344SHAKE", 15)
    ∷ ("OQS_CODEPOINT_KYBER512", 16)
    ∷ ("OQS_CODEPOINT_P256_KYBER512", 17)
    ∷ ("OQS_CODEPOINT_X25519_KYBER512", 18)
    ∷ ("OQS_CODEPOINT_KYBER768", 19)
    ∷ ("OQS_CODEPOINT_P384_KYBER768", 20)
    ∷ ("OQS_CODEPOINT_X448_KYBER768", 21)
    ∷ ("OQS_CODEPOINT_X25519_KYBER768", 22)
    ∷ ("OQS_CODEPOINT_P256_KYBER768", 23)
    ∷ ("OQS_CODEPOINT_KYBER1024", 24)
    ∷ ("OQS_CODEPOINT_P521_KYBER1024", 25)
    ∷ ("OQS_CODEPOINT_BIKEL1", 26)
    ∷ ("OQS_CODEPOINT_P256_BIKEL1", 27)
    ∷ ("OQS_CODEPOINT_X25519_BIKEL1", 28)
    ∷ ("OQS_CODEPOINT_BIKEL3", 29)
    ∷ ("OQS_CODEPOINT_P384_BIKEL3", 30)
    ∷ ("OQS_CODEPOINT_X448_BIKEL3", 31)
    ∷ ("OQS_CODEPOINT_BIKEL5", 32)
    ∷ ("OQS_CODEPOINT_P521_BIKEL5", 33)
    ∷ ("OQS_CODEPOINT_HQC128", 34)
    ∷ ("OQS_CODEPOINT_P256_HQC128", 35)
    ∷ ("OQS_CODEPOINT_X25519_HQC128", 36)
    ∷ ("OQS_CODEPOINT_HQC192", 37)
    ∷ ("OQS_CODEPOINT_P384_HQC192", 38)
    ∷ ("OQS_CODEPOINT_X448_HQC192", 39)
    ∷ ("OQS_CODEPOINT_HQC256", 40)
    ∷ ("OQS_CODEPOINT_P521_HQC256", 41)
    ∷ []
