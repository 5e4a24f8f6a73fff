-- ===== src/NidTable.antt =====
-- The table `nid_names` of oqsprov/oqsprov_keys.c and the functions over it.
pub mod Lookup
use Prim.Native.String.{String}
use text.Mathlib.Text.{◌==◌ as str_eq}
use oqs_provider.Base.{
  ℕ, suc, ◌==◌, Bool, true, false, Option, none, some, List, [], ◌∷◌, ◌++◌, if◌then◌else◌,
}
use oqs_provider.Extern.{
  OqsName, frodokem_640_aes, frodokem_640_shake, frodokem_976_aes, frodokem_976_shake,
  frodokem_1344_aes, frodokem_1344_shake, kyber_512, kyber_768, kyber_1024, bike_l1, bike_l3,
  bike_l5, hqc_128, hqc_192, hqc_256, dilithium_2, dilithium_3, dilithium_5, falcon_512,
  falcon_1024, sphincs_sha2_128f_simple, sphincs_sha2_128s_simple, sphincs_sha2_192f_simple,
  sphincs_shake_128f_simple,
}
use oqs_provider.Key.{KeyType, sig, kem, ecp_hyb_kem, ecx_hyb_kem, hyb_sig}

pub record NidName : Type 0 where
  pub nid : ℕ
  pub tlsname : String
  pub oqsname : OqsName
  pub keytype : KeyType
  pub secbits : ℕ

abbrev row : String → OqsName → KeyType → ℕ → NidName
row name oqs type bits = record {
  nid = 0;
  tlsname = name;
  oqsname = oqs;
  keytype = type;
  secbits = bits;
}

-- The rows under OQS_KEM_ENCODERS.
abbrev pub kem_names : List NidName
kem_names =
    row "frodo640aes" frodokem_640_aes kem 128
    ∷ row "p256_frodo640aes" frodokem_640_aes ecp_hyb_kem 128
    ∷ row "x25519_frodo640aes" frodokem_640_aes ecx_hyb_kem 128
    ∷ row "frodo640shake" frodokem_640_shake kem 128
    ∷ row "p256_frodo640shake" frodokem_640_shake ecp_hyb_kem 128
    ∷ row "x25519_frodo640shake" frodokem_640_shake ecx_hyb_kem 128
    ∷ row "frodo976aes" frodokem_976_aes kem 192
    ∷ row "p384_frodo976aes" frodokem_976_aes ecp_hyb_kem 192
    ∷ row "x448_frodo976aes" frodokem_976_aes ecx_hyb_kem 192
    ∷ row "frodo976shake" frodokem_976_shake kem 192
    ∷ row "p384_frodo976shake" frodokem_976_shake ecp_hyb_kem 192
    ∷ row "x448_frodo976shake" frodokem_976_shake ecx_hyb_kem 192
    ∷ row "frodo1344aes" frodokem_1344_aes kem 256
    ∷ row "p521_frodo1344aes" frodokem_1344_aes ecp_hyb_kem 256
    ∷ row "frodo1344shake" frodokem_1344_shake kem 256
    ∷ row "p521_frodo1344shake" frodokem_1344_shake ecp_hyb_kem 256
    ∷ row "kyber512" kyber_512 kem 128
    ∷ row "p256_kyber512" kyber_512 ecp_hyb_kem 128
    ∷ row "x25519_kyber512" kyber_512 ecx_hyb_kem 128
    ∷ row "kyber768" kyber_768 kem 192
    ∷ row "p384_kyber768" kyber_768 ecp_hyb_kem 192
    ∷ row "x448_kyber768" kyber_768 ecx_hyb_kem 192
    ∷ row "x25519_kyber768" kyber_768 ecx_hyb_kem 192
    ∷ row "p256_kyber768" kyber_768 ecp_hyb_kem 192
    ∷ row "kyber1024" kyber_1024 kem 256
    ∷ row "p521_kyber1024" kyber_1024 ecp_hyb_kem 256
    ∷ row "bikel1" bike_l1 kem 128
    ∷ row "p256_bikel1" bike_l1 ecp_hyb_kem 128
    ∷ row "x25519_bikel1" bike_l1 ecx_hyb_kem 128
    ∷ row "bikel3" bike_l3 kem 192
    ∷ row "p384_bikel3" bike_l3 ecp_hyb_kem 192
    ∷ row "x448_bikel3" bike_l3 ecx_hyb_kem 192
    ∷ row "bikel5" bike_l5 kem 256
    ∷ row "p521_bikel5" bike_l5 ecp_hyb_kem 256
    ∷ row "hqc128" hqc_128 kem 128
    ∷ row "p256_hqc128" hqc_128 ecp_hyb_kem 128
    ∷ row "x25519_hqc128" hqc_128 ecx_hyb_kem 128
    ∷ row "hqc192" hqc_192 kem 192
    ∷ row "p384_hqc192" hqc_192 ecp_hyb_kem 192
    ∷ row "x448_hqc192" hqc_192 ecx_hyb_kem 192
    ∷ row "hqc256" hqc_256 kem 256
    ∷ row "p521_hqc256" hqc_256 ecp_hyb_kem 256
    ∷ []

-- The rows of every build.
abbrev pub sig_names : List NidName
sig_names =
    row "dilithium2" dilithium_2 sig 128
    ∷ row "p256_dilithium2" dilithium_2 hyb_sig 128
    ∷ row "rsa3072_dilithium2" dilithium_2 hyb_sig 128
    ∷ row "dilithium3" dilithium_3 sig 192
    ∷ row "p384_dilithium3" dilithium_3 hyb_sig 192
    ∷ row "dilithium5" dilithium_5 sig 256
    ∷ row "p521_dilithium5" dilithium_5 hyb_sig 256
    ∷ row "falcon512" falcon_512 sig 128
    ∷ row "p256_falcon512" falcon_512 hyb_sig 128
    ∷ row "rsa3072_falcon512" falcon_512 hyb_sig 128
    ∷ row "falcon1024" falcon_1024 sig 256
    ∷ row "p521_falcon1024" falcon_1024 hyb_sig 256
    ∷ row "sphincssha2128fsimple" sphincs_sha2_128f_simple sig 128
    ∷ row "p256_sphincssha2128fsimple" sphincs_sha2_128f_simple hyb_sig 128
    ∷ row "rsa3072_sphincssha2128fsimple" sphincs_sha2_128f_simple hyb_sig 128
    ∷ row "sphincssha2128ssimple" sphincs_sha2_128s_simple sig 128
    ∷ row "p256_sphincssha2128ssimple" sphincs_sha2_128s_simple hyb_sig 128
    ∷ row "rsa3072_sphincssha2128ssimple" sphincs_sha2_128s_simple hyb_sig 128
    ∷ row "sphincssha2192fsimple" sphincs_sha2_192f_simple sig 192
    ∷ row "p384_sphincssha2192fsimple" sphincs_sha2_192f_simple hyb_sig 192
    ∷ row "sphincsshake128fsimple" sphincs_shake_128f_simple sig 128
    ∷ row "p256_sphincsshake128fsimple" sphincs_shake_128f_simple hyb_sig 128
    ∷ row "rsa3072_sphincsshake128fsimple" sphincs_shake_128f_simple hyb_sig 128
    ∷ []

-- The table as it stands at load time, with or without OQS_KEM_ENCODERS.
abbrev pub nid_names : Bool → List NidName
nid_names true = kem_names ++ sig_names
nid_names false = sig_names

-- oqs_set_nid: the first row of that name gets the number. `false` for the return value 0.
unfoldable pub set_nid : List NidName → String → ℕ → List NidName × Bool
set_nid [] name n = ([], false)
set_nid (r ∷ rs) name n =
    let (rs', found) = set_nid rs name n in
    if str_eq r.tlsname name then (record r { nid = n } ∷ rs, true) else (r ∷ rs', found)

-- The first row with a number, which the four getters look for.
unfoldable pub find_nid : List NidName → ℕ → Option NidName
find_nid [] n = none
find_nid (r ∷ rs) n = if r.nid == n then some r else find_nid rs n

unfoldable pub get_secbits : List NidName → ℕ → ℕ
unfolding find_nid
get_secbits rows n = elim (find_nid rows n) [ some r ↦ r.secbits | none ↦ 0 ]

-- The 0 of an unknown number is KEY_TYPE_SIG.
unfoldable pub get_keytype : List NidName → ℕ → KeyType
unfolding find_nid
get_keytype rows n = elim (find_nid rows n) [ some r ↦ r.keytype | none ↦ sig ]

unfoldable pub get_oqsname : List NidName → ℕ → Option OqsName
unfolding find_nid
get_oqsname rows n = elim (find_nid rows n) [ some r ↦ some r.oqsname | none ↦ none ]

-- `none` for -1.
unfoldable pub get_oqsalg_idx : List NidName → ℕ → Option ℕ
get_oqsalg_idx [] n = none
get_oqsalg_idx (r ∷ rs) n =
    let rest = get_oqsalg_idx rs n in
    if r.nid == n then some 0 else elim rest [ some i ↦ some (suc i) | none ↦ none ]
