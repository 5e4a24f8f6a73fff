-- ===== src/Key/Gen.antt =====
-- Key generation, of oqsprov/oqsprov_keys.c.
pub mod Classical
pub mod Pair
pub mod Plain
use oqs_provider.Base.{
  ℕ, ◌+◌, ◌-◌, ◌≡◌, ◌==◌, Bool, true, false, ◌||◌, not, Option, none, some, List, [], ◌∷◌,
  if◌then◌else◌, get_elem?, leb, length, ltb,
}
use oqs_provider.Run.{Run, ok, ub, ◌>>=◌, ◌>>◌}
use oqs_provider.Memory.{Bytes, Slot, at_offset, size_of_uint32, write, encode_uint32}
use oqs_provider.Extern.{EvpType, evp_rsa, EvpNid, rsa_encryption, Evp, Oqs, Alloc}
use oqs_provider.Key.{
  KeyType, sig, kem, ecp_hyb_kem, ecx_hyb_kem, hyb_sig, other, EvpInfo, as_sig, as_kem, OqsxKey,
  deref, read_slot, write_slot, set_composites, allocate_keymaterial,
}

-- `pubkey` and `privkey` as oqsx_key_gen_evp_key leaves them, and what it returns.
pub record EvpKeys (Pkey : Type 0) : Type 0 where
  pub pkey : Option Pkey
  pub pubkey : Bytes
  pub privkey : Bytes

module _ (evp : Evp) where
  open evp use {Pkey}

  -- errhyb: what was made is freed, and null is returned.
  abbrev errhyb : Bytes → Bytes → Run (EvpKeys Pkey)
  errhyb pubkey privkey = ok (record { pkey = none; pubkey = pubkey; privkey = privkey })

  -- The lengths go to the heads of the buffers.
  store_lengths : Pkey → (publen privlen : ℕ) → Bytes → Bytes → Run (EvpKeys Pkey)
  store_lengths p publen privlen pubkey privkey = do
    pubkey' ← write pubkey 0 (encode_uint32 publen)
    privkey' ← write privkey 0 (encode_uint32 privlen)
    ok (record { pkey = some p; pubkey = pubkey'; privkey = privkey' })

  -- EVP_PKEY_get_raw_private_key fails if the key is longer than the room that it is told of.
  gen_raw_private :
      EvpInfo → Pkey → (publen : ℕ) → Bytes → Bytes → Option Bytes → Run (EvpKeys Pkey)
  unfolding store_lengths
  gen_raw_private info p publen pubkey privkey none = errhyb pubkey privkey
  gen_raw_private info p publen pubkey privkey (some enc) =
      if ltb info.length_private_key (length enc)
      then errhyb pubkey privkey
      else write privkey size_of_uint32 enc >>= λ privkey'.
          if length enc == info.length_private_key
          then store_lengths p publen (length enc) pubkey privkey'
          else errhyb pubkey privkey'

  -- The raw keys of X25519 and X448.
  gen_raw : EvpInfo → Pkey → Bytes → Bytes → Option Bytes → Run (EvpKeys Pkey)
  unfolding gen_raw_private
  gen_raw info p pubkey privkey none = errhyb pubkey privkey
  gen_raw info p pubkey privkey (some enc) =
      if not (length enc == info.length_public_key)
      then errhyb pubkey privkey
      else write pubkey size_of_uint32 enc >>= λ pubkey'.
          gen_raw_private info p (length enc) pubkey' privkey (evp.get_raw_private_key p)

  -- The DER keys: i2d writes before the length is looked at, and the private key is read back.
  gen_der_private :
      EvpInfo → Pkey → (publen : ℕ) → Bytes → Bytes → Option Bytes → Run (EvpKeys Pkey)
  unfolding store_lengths
  gen_der_private info p publen pubkey privkey none = errhyb pubkey privkey
  gen_der_private info p publen pubkey privkey (some enc) =
      write privkey size_of_uint32 enc >>= λ privkey'.
      if ltb info.length_private_key (length enc)
      then errhyb pubkey privkey'
      else elim (evp.d2i_private_key info.keytype enc) [
        | none ↦ errhyb pubkey privkey'
        | some _ ↦ store_lengths p publen (length enc) pubkey privkey'
      ]

  gen_der : EvpInfo → Pkey → Bytes → Bytes → Option Bytes → Run (EvpKeys Pkey)
  unfolding gen_der_private
  gen_der info p pubkey privkey none = errhyb pubkey privkey
  gen_der info p pubkey privkey (some enc) = write pubkey size_of_uint32 enc >>= λ pubkey'.
      if ltb info.length_public_key (length enc)
      then errhyb pubkey' privkey
      else gen_der_private info p (length enc) pubkey' privkey (evp.i2d_private_key p)

  -- oqsx_key_gen_evp_key; the chain of calls up to EVP_PKEY_keygen is `evp.keygen`.
  pub gen_evp_key : ℕ → EvpInfo → Bytes → Bytes → Run (EvpKeys Pkey)
  unfolding gen_raw gen_der
  gen_evp_key seed info pubkey privkey = elim (evp.keygen info.keytype info.nid seed) [
    | none ↦ errhyb pubkey privkey
    | some p ↦
        if info.raw_key_support
        then gen_raw info p pubkey privkey (evp.get1_encoded_public_key p)
        else gen_der info p pubkey privkey (evp.i2d_public_key p)
  ]

module _ (evp : Evp) (oqs : Oqs) where
  open evp use {Pkey}

  -- Both halves of a fresh key pair go to the last component.
  store_pair : OqsxKey Pkey → Option (Bytes × Bytes) → Run (OqsxKey Pkey × Bool)
  store_pair key none = ok (key, true)
  store_pair key (some (pub_bytes, priv_bytes)) = do
    pubkey ← write_slot key.pubkey (get_elem? key.comp_pubkey (key.numkeys - 1)) pub_bytes
    privkey ← write_slot key.privkey (get_elem? key.comp_privkey (key.numkeys - 1)) priv_bytes
    ok (record key { pubkey = some pubkey; privkey = some privkey }, false)

  -- oqsx_key_gen_oqs: `true` for a status other than OQS_SUCCESS.
  pub gen_oqs : ℕ → OqsxKey Pkey → (gen_kem : Bool) → Run (OqsxKey Pkey × Bool)
  unfolding store_pair
  gen_oqs seed key true = do k ← as_kem key.qs_ctx; store_pair key (oqs.kem_keypair k seed)
  gen_oqs seed key false = do s ← as_sig key.qs_ctx; store_pair key (oqs.sig_keypair s seed)

  -- `err:`, where a nonzero `ret` drops the classical key.
  finish : OqsxKey Pkey × Bool → Run (OqsxKey Pkey × Bool)
  finish (key, true) = ok (record key { classical_pkey = none }, true)
  finish (key, false) = ok (key, false)

  gen_plain : ℕ → OqsxKey Pkey → (gen_kem : Bool) → Run (OqsxKey Pkey × Bool)
  unfolding gen_oqs
  gen_plain seed key gen_kem = do key' ← set_composites key; gen_oqs seed key' gen_kem

  -- A classical key that could not be made leaves `ret` at 0.
  gen_hybrid : ℕ → OqsxKey Pkey → (gen_kem : Bool) → Run (OqsxKey Pkey × Bool)
  unfolding gen_evp_key gen_oqs
  gen_hybrid seed key gen_kem = do
    info ← deref key.evp_info
    pubkey ← deref key.pubkey
    privkey ← deref key.privkey
    keys ← gen_evp_key evp seed info pubkey privkey
    let made = record key { pubkey = some keys.pubkey; privkey = some keys.privkey }
    elim keys.pkey [
      | none ↦ ok (made, false)
      | some p ↦ do
        key' ← set_composites made
        gen_oqs seed (record key' { classical_pkey = some p }) gen_kem
    ]

  gen_by_type : ℕ → OqsxKey Pkey → KeyType → Run (OqsxKey Pkey × Bool)
  unfolding gen_plain gen_hybrid
  gen_by_type seed key kem = gen_plain seed key true
  gen_by_type seed key ecp_hyb_kem = gen_hybrid seed key true
  gen_by_type seed key ecx_hyb_kem = gen_hybrid seed key true
  gen_by_type seed key hyb_sig = gen_hybrid seed key false
  gen_by_type seed key sig = gen_plain seed key false
  gen_by_type seed key other = ok (key, true)

  -- The buffers that are missing, the public one first: an allocation does nothing where a buffer
  -- stands. `true` if one failed, and then the second is not tried.
  pub ensure_keymaterial : Alloc → OqsxKey Pkey → OqsxKey Pkey × Bool
  ensure_keymaterial alloc key =
      let (key', no_pub) = allocate_keymaterial alloc key false in
      if no_pub then (key', true) else allocate_keymaterial alloc key' true

  -- oqsx_key_gen: `true` for a nonzero return value, which its callers take for a failure.
  pub key_gen : Alloc → ℕ → OqsxKey Pkey → Run (OqsxKey Pkey × Bool)
  unfolding ensure_keymaterial gen_by_type finish
  key_gen alloc seed key =
      let (key', failed) = ensure_keymaterial alloc key in
      if failed then finish (key', true) else do r ← gen_by_type seed key' key.keytype; finish r
