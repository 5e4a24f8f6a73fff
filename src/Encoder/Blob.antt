-- ===== src/Encoder/Blob.antt =====
-- The bytes that go into a SubjectPublicKeyInfo and into a PrivateKeyInfo, of
-- oqsprov/oqs_encode_key2any.c.
use oqs_provider.Base.{ℕ, ◌-◌, Bool, Option, none, some, ◌++◌, if◌then◌else◌, get_elem?, leb, ltb}
use oqs_provider.Run.{
  Run, ok, err, passed_null_parameter, invalid_encoding, malloc_failure, ◌>>=◌, ◌>>◌, ensure,
}
use oqs_provider.Memory.{Bytes, read, decode_uint32, int_to_size}
use oqs_provider.Key.{OqsxKey, deref, read_slot, get_oqs_public_key_len}

abbrev or_null {ℓ} : {A : Type ℓ} → Option A → Run A
or_null none = err passed_null_parameter
or_null (some a) = ok a

module _ {Pkey : Type 0} where
  -- oqsx_spki_pub_to_der
  unfoldable pub spki_pub_to_der : (alloc_ok : Bool) → Option (OqsxKey Pkey) → Run Bytes
  spki_pub_to_der alloc_ok k = do
    key ← or_null k
    buf ← or_null key.pubkey
    ensure alloc_ok malloc_failure
    read buf 0 key.pubkeylen

  -- The private part: what the header of a hybrid key leaves of it.
  unfoldable pub encoded_privkeylen : OqsxKey Pkey → Bytes → Run ℕ
  encoded_privkeylen key buf =
      if ltb 1 key.numkeys
      then (do
        n ← decode_uint32 buf
        i ← deref key.evp_info
        ensure (leb (int_to_size n) i.length_private_key) invalid_encoding
        ok (key.privkeylen - (i.length_private_key - int_to_size n)))
      else ok key.privkeylen

  -- oqsx_pki_priv_to_der, up to the octet string around the bytes: the private key, and behind it
  -- the liboqs public key.
  unfoldable pub pki_priv_to_der : Option (OqsxKey Pkey) → Run Bytes
  unfolding encoded_privkeylen
  pki_priv_to_der k = do
    key ← or_null k
    priv ← or_null key.privkey
    pub_buf ← or_null key.pubkey
    len ← encoded_privkeylen key priv
    private ← read priv 0 len
    publen ← get_oqs_public_key_len key
    oqs_len ← deref publen
    oqs_pub ← read_slot key.pubkey (get_elem? key.comp_pubkey (key.numkeys - 1)) oqs_len
    ok (private ++ oqs_pub)
