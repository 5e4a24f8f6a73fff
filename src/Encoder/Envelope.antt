-- ===== src/Encoder/Envelope.antt =====
-- oqsprov/oqs_encode_key2any.c: the structures around the bytes of a key, and how they are written. A
-- function gives what it wrote, or fails where it returns 0.
use oqs_provider.Base.{ℕ, ◌==◌, Bool, not, Option, if◌then◌else◌, ltb, length}
use oqs_provider.Run.{
  Run, ok, err, ub, silent, malloc_failure, invalid_key, missing_oid, unable_to_get_passphrase,
  ◌>>=◌, ◌>>◌, ensure, or_err,
}
use oqs_provider.Memory.{Bytes}
use oqs_provider.Extern.{Asn1, Envelope, Form}
use oqs_provider.Key.{OqsxKey}
use oqs_provider.Encoder.Blob.{pki_priv_to_der}

-- `struct key2any_ctx_st`. A passphrase callback stands here by the passphrase that it gives.
pub record Key2anyCtx (Cipher : Type 0) : Type 0 where
  pub save_parameters : ℕ
  pub cipher_intent : Bool
  pub cipher : Option Cipher
  pub pwcb : Option (Option Bytes)

-- Whatever failed, ERR_R_MALLOC_FAILURE is raised.
abbrev pub as_malloc_failure {ℓ} : {A : Type ℓ} → Run A → Run A
as_malloc_failure (ok a) = ok a
as_malloc_failure (err e) = err malloc_failure
as_malloc_failure ub = ub

module _ (asn : Asn1) where
  open asn use {
    Cipher, sn2nid, object_length, i2d_octet_string, p8info, x509_pubkey, write_p8info,
    write_x509_pubkey, pkcs8_encrypt, write_p8,
  }

  -- oqsx_pki_priv_to_der, and oqsx_epki_priv_to_der, with the octet string around the bytes.
  unfoldable pub private_der : {Pkey : Type 0} → Option (OqsxKey Pkey) → Run Bytes
  private_der key = do blob ← pki_priv_to_der key; or_err malloc_failure (i2d_octet_string blob)

  -- `(derlen = k2d(key, &der)) <= 0 || !set(nid, der)`
  abbrev enclose : (ℕ → Bytes → Option Envelope) → Run Bytes → ℕ → Run Envelope
  enclose set k2d nid = as_malloc_failure (do
    der ← k2d
    ensure (ltb 0 (length der)) malloc_failure
    or_err malloc_failure (set nid der))

  -- key_to_p8info and oqsx_key_to_pubkey
  unfoldable pub key_to_p8info : Run Bytes → (key_nid : ℕ) → Run Envelope
  key_to_p8info k2d key_nid = enclose p8info k2d key_nid

  unfoldable pub key_to_pubkey : Run Bytes → (key_nid : ℕ) → Run Envelope
  key_to_pubkey k2d key_nid = enclose x509_pubkey k2d key_nid

  -- p8info_to_encp8: nothing is encrypted without a cipher and a passphrase.
  unfoldable pub p8info_to_encp8 : Envelope → Key2anyCtx Cipher → Run Bytes
  p8info_to_encp8 p8 ctx = do
    cipher ← or_err silent ctx.cipher
    callback ← or_err silent ctx.pwcb
    kstr ← or_err unable_to_get_passphrase callback
    or_err silent (pkcs8_encrypt cipher kstr p8)

  unfoldable pub key_to_encp8 : Run Bytes → (key_nid : ℕ) → Key2anyCtx Cipher → Run Bytes
  unfolding key_to_p8info p8info_to_encp8
  key_to_encp8 k2d key_nid ctx = do p8 ← key_to_p8info k2d key_nid; p8info_to_encp8 p8 ctx

  -- prepare_oqsx_params, which is handed on as `p2s`.
  unfoldable pub prepare_params : {Pkey : Type 0} → OqsxKey Pkey → (nid : ℕ) → Run (Unit {0})
  prepare_params k nid = do
    ensure (sn2nid k.tls_name == nid) invalid_key
    ensure (not (nid == 0)) missing_oid
    len ← or_err silent (object_length nid)
    ensure (not (len == 0)) missing_oid

  -- key_to_epki_der_priv_bio and key_to_epki_pem_priv_bio
  unfoldable pub key_to_epki_priv_bio :
      {Pkey : Type 0}
      → Form
      → OqsxKey Pkey
      → (key_nid : ℕ) → Run Bytes
      → Key2anyCtx Cipher
      → Run Bytes
  unfolding prepare_params key_to_encp8
  key_to_epki_priv_bio form key key_nid k2d ctx = do
    ensure ctx.cipher_intent silent
    prepare_params key key_nid
    p8 ← key_to_encp8 k2d key_nid ctx
    or_err silent (write_p8 form p8)

  -- key_to_pki_der_priv_bio and key_to_pki_pem_priv_bio
  unfoldable pub key_to_pki_priv_bio :
      {Pkey : Type 0}
      → Form
      → OqsxKey Pkey
      → (key_nid : ℕ) → Run Bytes
      → Key2anyCtx Cipher
      → Run Bytes
  unfolding key_to_epki_priv_bio
  key_to_pki_priv_bio form key key_nid k2d ctx =
      if ctx.cipher_intent then key_to_epki_priv_bio form key key_nid k2d ctx else do
        prepare_params key key_nid
        p8 ← key_to_p8info k2d key_nid
        or_err silent (write_p8info form p8)

  -- key_to_spki_der_pub_bio and key_to_spki_pem_pub_bio
  unfoldable pub key_to_spki_pub_bio :
      {Pkey : Type 0} → Form → OqsxKey Pkey → (key_nid : ℕ) → Run Bytes → Run Bytes
  unfolding prepare_params key_to_pubkey
  key_to_spki_pub_bio form key key_nid k2d = do
    prepare_params key key_nid
    xpk ← key_to_pubkey k2d key_nid
    or_err silent (write_x509_pubkey form xpk)
