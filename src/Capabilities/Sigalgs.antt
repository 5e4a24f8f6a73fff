-- ===== src/Capabilities/Sigalgs.antt =====
-- oqsprov/oqsprov_capabilities.c: the TLS signature algorithms, where liboqs has each of them.
use Prim.Native.String.{String}
use oqs_provider.Base.{ℕ, Option, some, List, [], ◌∷◌}

-- `OQS_SIGALG_CONSTANTS`
pub record SigalgConstants : Type 0 where
  pub code_point : ℕ
  pub secbits : ℕ
  pub mintls : Option ℕ
  pub maxtls : Option ℕ

abbrev pub sigalg : ℕ → ℕ → SigalgConstants
sigalg point bits = record {
  code_point = point;
  secbits = bits;
  mintls = some 772;
  maxtls = some 0;
}

-- oqs_sigalg_list
abbrev pub sigalg_list : List SigalgConstants
sigalg_list =
    sigalg 65184 128
    ∷ sigalg 65185 128
    ∷ sigalg 65186 128
    ∷ sigalg 65187 192
    ∷ sigalg 65188 192
    ∷ sigalg 65189 256
    ∷ sigalg 65190 256
    ∷ sigalg 65198 128
    ∷ sigalg 65199 128
    ∷ sigalg 65200 128
    ∷ sigalg 65201 256
    ∷ sigalg 65202 256
    ∷ sigalg 65203 128
    ∷ sigalg 65204 128
    ∷ sigalg 65205 128
    ∷ sigalg 65206 128
    ∷ sigalg 65207 128
    ∷ sigalg 65208 128
    ∷ sigalg 65209 192
    ∷ sigalg 65210 192
    ∷ sigalg 65218 128
    ∷ sigalg 65219 128
    ∷ sigalg 65220 128
    ∷ []

-- OQS_SIGALG_ENTRY. The macro makes a text of `oid`, which is in quotes already: what is passed on has them
-- too. `realname` and `algorithm` are not used.
pub record SigalgEntry : Type 0 where
  pub tlsname : String
  pub oid : String
  pub idx : ℕ

abbrev pub sigalg_entry : String → String → ℕ → SigalgEntry
sigalg_entry tlsname oid idx = record { tlsname = tlsname; oid = oid; idx = idx }

-- oqs_param_sigalg_list
abbrev pub sigalg_entries : List SigalgEntry
sigalg_entries =
    sigalg_entry "dilithium2" "\"1.3.6.1.4.1.2.267.7.4.4\"" 0
    ∷ sigalg_entry "p256_dilithium2" "\"1.3.9999.2.7.1\"" 1
    ∷ sigalg_entry "rsa3072_dilithium2" "\"1.3.9999.2.7.2\"" 2
    ∷ sigalg_entry "dilithium3" "\"1.3.6.1.4.1.2.267.7.6.5\"" 3
    ∷ sigalg_entry "p384_dilithium3" "\"1.3.9999.2.7.3\"" 4
    ∷ sigalg_entry "dilithium5" "\"1.3.6.1.4.1.2.267.7.8.7\"" 5
    ∷ sigalg_entry "p521_dilithium5" "\"1.3.9999.2.7.4\"" 6
    ∷ sigalg_entry "falcon512" "\"1.3.9999.3.6\"" 7
    ∷ sigalg_entry "p256_falcon512" "\"1.3.9999.3.7\"" 8
    ∷ sigalg_entry "rsa3072_falcon512" "\"1.3.9999.3.8\"" 9
    ∷ sigalg_entry "falcon1024" "\"1.3.9999.3.9\"" 10
    ∷ sigalg_entry "p521_falcon1024" "\"1.3.9999.3.10\"" 11
    ∷ sigalg_entry "sphincssha2128fsimple" "\"1.3.9999.6.4.13\"" 12
    ∷ sigalg_entry "p256_sphincssha2128fsimple" "\"1.3.9999.6.4.14\"" 13
    ∷ sigalg_entry "rsa3072_sphincssha2128fsimple" "\"1.3.9999.6.4.15\"" 14
    ∷ sigalg_entry "sphincssha2128ssimple" "\"1.3.9999.6.4.16\"" 15
    ∷ sigalg_entry "p256_sphincssha2128ssimple" "\"1.3.9999.6.4.17\"" 16
    ∷ sigalg_entry "rsa3072_sphincssha2128ssimple" "\"1.3.9999.6.4.18\"" 17
    ∷ sigalg_entry "sphincssha2192fsimple" "\"1.3.9999.6.5.10\"" 18
    ∷ sigalg_entry "p384_sphincssha2192fsimple" "\"1.3.9999.6.5.11\"" 19
    ∷ sigalg_entry "sphincsshake128fsimple" "\"1.3.9999.6.7.13\"" 20
    ∷ sigalg_entry "p256_sphincsshake128fsimple" "\"1.3.9999.6.7.14\"" 21
    ∷ sigalg_entry "rsa3072_sphincsshake128fsimple" "\"1.3.9999.6.7.15\"" 22
    ∷ []

-- The variables that oqs_patch_codepoints asks for, with their places in oqs_sigalg_list.
abbrev pub sigalg_variables : List (String × ℕ)
sigalg_variables =
    ("OQS_CODEPOINT_DILITHIUM2", 0)
    ∷ ("OQS_CODEPOINT_P256_DILITHIUM2", 1)
    ∷ ("OQS_CODEPOINT_RSA3072_DILITHIUM2", 2)
    ∷ ("OQS_CODEPOINT_DILITHIUM3", 3)
    ∷ ("OQS_CODEPOINT_P384_DILITHIUM3", 4)
    ∷ ("OQS_CODEPOINT_DILITHIUM5", 5)
    ∷ ("OQS_CODEPOINT_P521_DILITHIUM5", 6)
    ∷ ("OQS_CODEPOINT_FALCON512", 7)
    ∷ ("OQS_CODEPOINT_P256_FALCON512", 8)
    ∷ ("OQS_CODEPOINT_RSA3072_FALCON512", 9)
    ∷ ("OQS_CODEPOINT_FALCON1024", 10)
    ∷ ("OQS_CODEPOINT_P521_FALCON1024", 11)
    ∷ ("OQS_CODEPOINT_SPHINCSSHA2128FSIMPLE", 12)
    ∷ ("OQS_CODEPOINT_P256_SPHINCSSHA2128FSIMPLE", 13)
    ∷ ("OQS_CODEPOINT_RSA3072_SPHINCSSHA2128FSIMPLE", 14)
    ∷ ("OQS_CODEPOINT_SPHINCSSHA2128SSIMPLE", 15)
    ∷ ("OQS_CODEPOINT_P256_SPHINCSSHA2128SSIMPLE", 16)
    ∷ ("OQS_CODEPOINT_RSA3072_SPHINCSSHA2128SSIMPLE", 17)
    ∷ ("OQS_CODEPOINT_SPHINCSSHA2192FSIMPLE", 18)
    ∷ ("OQS_CODEPOINT_P384_SPHINCSSHA2192FSIMPLE", 19)
    ∷ ("OQS_CODEPOINT_SPHINCSSHAKE128FSIMPLE", 20)
    ∷ ("OQS_CODEPOINT_P256_SPHINCSSHAKE128FSIMPLE", 21)
    ∷ ("OQS_CODEPOINT_RSA3072_SPHINCSSHAKE128FSIMPLE", 22)
    ∷ []
