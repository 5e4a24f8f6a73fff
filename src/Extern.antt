-- ===== src/Extern.antt =====
-- What the provider calls and does not implement: OpenSSL's EVP keys and liboqs, as parameters.
-- `none` stands for a null result or an error code; `seed` stands for the randomness that a call
-- draws. An allocation succeeds or not by its place in the code.
use Prim.Native.String.{String}
use oqs_provider.Base.{ℕ, Bool, Option}
use oqs_provider.Memory.{Bytes}

-- EVP_PKEY_EC, EVP_PKEY_RSA, EVP_PKEY_X25519, EVP_PKEY_X448 and the 0 of the unused row.
pub data EvpType : Type 0 where
  evp_ec evp_rsa evp_x25519 evp_x448 evp_none : EvpType

-- NID_X9_62_prime256v1, NID_secp384r1, NID_secp521r1, NID_rsaEncryption and 0.
pub data EvpNid : Type 0 where
  prime256v1 secp384r1 secp521r1 rsa_encryption nid_undef : EvpNid

-- The fields of liboqs' `OQS_SIG` and `OQS_KEM` that the provider reads.
pub record OqsSig : Type 0 where
  pub claimed_nist_level : ℕ
  pub length_public_key : ℕ
  pub length_secret_key : ℕ
  pub length_signature : ℕ

pub record OqsKem : Type 0 where
  pub length_public_key : ℕ
  pub length_secret_key : ℕ
  pub length_ciphertext : ℕ
  pub length_shared_secret : ℕ

-- The algorithm names of liboqs, by the macros OQS_KEM_alg_... and OQS_SIG_alg_...
pub data OqsName : Type 0 where
  frodokem_640_aes frodokem_640_shake frodokem_976_aes frodokem_976_shake : OqsName
  frodokem_1344_aes frodokem_1344_shake kyber_512 kyber_768 kyber_1024 bike_l1 bike_l3 : OqsName
  bike_l5 hqc_128 hqc_192 hqc_256 dilithium_2 dilithium_3 dilithium_5 falcon_512 : OqsName
  falcon_1024 sphincs_sha2_128f_simple sphincs_sha2_128s_simple sphincs_sha2_192f_simple : OqsName
  sphincs_shake_128f_simple : OqsName

-- A digest of the three that hybrid signatures use.
pub data Digest : Type 0 where
  sha256 sha384 sha512 : Digest

pub record Evp : Type 1 where
  pub Pkey : Type 0
  pub new_raw_public_key : EvpType → Bytes → Option Pkey
  pub new_raw_private_key : EvpType → Bytes → Option Pkey
  pub get_raw_public_key : Pkey → Option Bytes
  pub get_raw_private_key : Pkey → Option Bytes
  -- with `setECParams` for the curve, if one is given
  pub d2i_public_key : EvpType → Option EvpNid → Bytes → Option Pkey
  pub d2i_private_key : EvpType → Bytes → Option Pkey
  pub i2d_public_key : Pkey → Option Bytes
  pub i2d_private_key : Pkey → Option Bytes
  -- the context for key generation, with the curve's parameters set and generated
  pub param_ctx : EvpType → EvpNid → Bool
  pub keygen : EvpType → EvpNid → ℕ → Option Pkey
  -- d2i_AutoPrivateKey, which reads as far as the encoding goes
  pub d2i_auto_private_key : Bytes → Option Pkey
  pub set1_encoded_public_key : EvpType → EvpNid → Bytes → Option Pkey
  pub get1_encoded_public_key : Pkey → Option Bytes
  -- EVP_PKEY_derive with a private key, the peer's key and the room for the secret
  pub derive : Pkey → Pkey → ℕ → Option Bytes
  pub hash : Digest → Bytes → Bytes
  -- the context for signing or verifying, and EVP_PKEY_CTX_set_rsa_padding on it
  pub sign_ctx : Pkey → Bool
  pub verify_ctx : Pkey → Bool
  pub rsa_padding : Pkey → Bool
  -- EVP_PKEY_sign of a digest with the room for the signature, and the seed
  pub sign : Pkey → Digest → Bytes → ℕ → ℕ → Option Bytes
  pub verify : Pkey → Digest → Bytes → Bytes → Bool

pub record Oqs : Type 0 where
  pub sig_new : OqsName → Option OqsSig
  pub kem_new : OqsName → Option OqsKem
  pub kem_keypair : OqsKem → ℕ → Option (Bytes × Bytes)
  pub sig_keypair : OqsSig → ℕ → Option (Bytes × Bytes)
  -- ciphertext and shared secret
  pub encaps : OqsKem → Bytes → ℕ → Option (Bytes × Bytes)
  pub decaps : OqsKem → Bytes → Bytes → Option Bytes
  pub sign : OqsSig → Bytes → Bytes → ℕ → Option Bytes
  pub verify : OqsSig → Bytes → Bytes → Bytes → Bool

-- The allocations that a key operation makes.
pub data Site : Type 0 where
  key_site evp_ctx_site privkey_site pubkey_site propq_site : Site

abbrev pub Alloc : Type 0
Alloc = Site → Bool

-- OpenSSL's message digests: fetched by name and properties, `none` for a null result.
pub record EvpMd : Type 1 where
  pub Md : Type 0
  pub MdCtx : Type 0
  pub fetch : String → Option String → Option Md
  pub nid_is_undef : Md → Bool
  -- a fresh context that is initialised with the digest
  pub digest_init : Md → Option MdCtx
  pub digest_update : MdCtx → Bytes → Option MdCtx
  pub digest_final : MdCtx → Option (Bytes × MdCtx)
  -- EVP_MD_CTX_copy_ex into a fresh context
  pub copy : MdCtx → Option MdCtx
  -- the DER of an algorithm identifier for a name, as OBJ_txt2obj and i2d_X509_ALGOR make it
  pub algorithm_id : String → Option Bytes
  -- OPENSSL_strlcpy into OSSL_MAX_NAME_SIZE bytes
  pub name_prefix : String → String

-- PKCS8_PRIV_KEY_INFO and X509_PUBKEY: the number of the algorithm, whether its parameters are absent, and
-- the bytes of the key.
pub record Envelope : Type 0 where
  pub nid : ℕ
  pub params_absent : Bool
  pub bytes : Bytes

pub data Form : Type 0 where
  der pem : Form

-- OpenSSL's ASN.1 and object functions. `none` stands for a null result, 0 or a negative length; the
-- number 0 is NID_undef.
pub record Asn1 : Type 1 where
  pub Cipher : Type 0
  pub sn2nid : String → ℕ
  pub nid2sn : ℕ → Option String
  -- the length of the object of a number
  pub object_length : ℕ → Option ℕ
  pub i2d_octet_string : Bytes → Option Bytes
  pub d2i_octet_string : Bytes → Option Bytes
  -- a new structure with the algorithm, without parameters, and the bytes
  pub p8info : ℕ → Bytes → Option Envelope
  pub x509_pubkey : ℕ → Bytes → Option Envelope
  pub write_p8info : Form → Envelope → Option Bytes
  pub write_x509_pubkey : Form → Envelope → Option Bytes
  pub d2i_p8info : Bytes → Option Envelope
  pub d2i_x509_pubkey : Bytes → Option Envelope
  pub cipher_fetch : String → Option String → Option Cipher
  -- PKCS8_encrypt_ex with a passphrase, and how its result is written
  pub pkcs8_encrypt : Cipher → Bytes → Envelope → Option Bytes
  pub write_p8 : Form → Bytes → Option Bytes
