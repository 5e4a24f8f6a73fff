-- ===== src/KeyMgmt/Params/RoundTrip.antt =====
-- An encoded public key that is set and asked for.
use oqs_provider.Base.{
  ℕ, ◌-◌, ◌≤◌, ◌≡◌, refl, sym, ◌∙◌, Bool, true, false, none, some, List, [], ◌∷◌, ◌++◌,
  if◌then◌else◌, length, take, length-take, arith, equal, Bool-cases, inl, inr,
}
use oqs_provider.Run.{Run, ok, err, silent, ◌>>=◌}
use oqs_provider.Memory.{Bytes, Slot, at_offset, size_of_uint32, read}
use oqs_provider.Memory.Laws.{read_rest, write_to_end}
use oqs_provider.Key.{OqsxKey, KeyType, sig, kem, ecp_hyb_kem, ecx_hyb_kem, hyb_sig, other, deref}
use oqs_provider.KeyMgmt.{octet_string, encoded_public_key}
use oqs_provider.KeyMgmt.Params.{is_hybrid_kem, store_encoded, set_encoded, set_params}

module _ {Pkey : Type 0} where
  abbrev by_kind : OqsxKey Pkey → Run Bytes
  by_kind key =
      if is_hybrid_kem key.keytype
      then (do buf ← deref key.pubkey; read buf size_of_uint32 (key.pubkeylen - size_of_uint32))
      else elim key.pubkey [ none ↦ err silent | some buf ↦ read buf 0 key.pubkeylen ]

  pub encoded_public_key-kind : (key : OqsxKey Pkey) → encoded_public_key key ≡ by_kind key
  unfolding encoded_public_key
  encoded_public_key-kind key = go key.keytype
    where
      go :
          (t : KeyType)
          → encoded_public_key (record key { keytype = t }) ≡ by_kind (record key { keytype = t })
      go sig = refl
      go kem = refl
      go ecp_hyb_kem = refl
      go ecx_hyb_kem = refl
      go hyb_sig = refl
      go other = refl

  -- A key with a public buffer of the length that it tells, whose first component, if it is a hybrid
  -- KEM's, stands behind the header.
  pub record IsFilled (key : OqsxKey Pkey) (buf : Bytes) : Type 0 where
    pub has : key.pubkey ≡ some buf
    pub len : key.pubkeylen ≡ length buf
    pub slots : List Slot
    pub first :
        is_hybrid_kem key.keytype ≡ true → key.comp_pubkey ≡ at_offset size_of_uint32 ∷ slots
    pub header : is_hybrid_kem key.keytype ≡ true → size_of_uint32 ≤ length buf

  abbrev pub encoded_length : OqsxKey Pkey → ℕ
  encoded_length key =
      if is_hybrid_kem key.keytype then key.pubkeylen - size_of_uint32 else key.pubkeylen

  -- What is in front of the encoded public key.
  abbrev pub front : OqsxKey Pkey → Bytes → Bytes
  front key buf = if is_hybrid_kem key.keytype then take size_of_uint32 buf else []

  module _ (key : OqsxKey Pkey) (buf bytes : Bytes) (filled : IsFilled key buf) where
    store_encoded-filled :
        (alloc_ok : Bool)
        → length bytes ≡ encoded_length key
        → store_encoded alloc_ok key bytes
          ≡ ok (record key { pubkey = some (front key buf ++ bytes) }, true)
    unfolding store_encoded
    store_encoded-filled alloc_ok e = elim (Bool-cases (is_hybrid_kem key.keytype)) [
      | inl hybrid ↦ rw (hybrid) (
          rw (equal _ _ (hybrid_length hybrid)) (
            rw (filled.first hybrid) (
              rw (filled.has) (
                rw
                  (write_to_end buf bytes size_of_uint32
                    (omega (arith, hybrid_length hybrid, filled.len, filled.header hybrid)))
                  refl))))
      | inr single ↦ rw (single) (
          rw (equal _ _ (single_length single)) (
            rw (filled.has) (
              rw (write_to_end buf bytes 0 (omega (arith, single_length single, filled.len)))
                refl)))
    ]
      where
        hybrid_length :
            is_hybrid_kem key.keytype ≡ true → length bytes ≡ key.pubkeylen - size_of_uint32
        hybrid_length hybrid = e ∙ rw (hybrid) refl

        single_length : is_hybrid_kem key.keytype ≡ false → length bytes ≡ key.pubkeylen
        single_length single = e ∙ rw (single) refl

    abbrev pub taken : OqsxKey Pkey
    taken = record key { pubkey = some (front key buf ++ bytes); privkey = none }

    encoded-taken : length bytes ≡ encoded_length key → encoded_public_key taken ≡ ok bytes
    encoded-taken e =
        encoded_public_key-kind taken ∙ (elim (Bool-cases (is_hybrid_kem key.keytype)) [
          | inl hybrid ↦ rw (hybrid) (
              read_rest (take size_of_uint32 buf) bytes size_of_uint32
                (key.pubkeylen - size_of_uint32)
                (omega (arith, filled.header hybrid, length-take size_of_uint32 buf))
                (sym (e ∙ rw (hybrid) refl)))
          | inr single ↦
              rw (single) (read_rest [] bytes 0 key.pubkeylen refl (sym (e ∙ rw (single) refl)))
        ])

    pub set_params-taken :
        (pubkey_ok propq_ok : Bool)
        → length bytes ≡ encoded_length key
        → set_params pubkey_ok propq_ok key (some (octet_string bytes)) none ≡ ok (taken, true)
    unfolding set_params set_encoded
    set_params-taken pubkey_ok propq_ok e = rw (store_encoded-filled pubkey_ok e) refl

    -- A key whose public buffer has the length that it tells, and whose first component stands behind the
    -- header if it is a hybrid KEM's, takes an encoded public key of the right length, whatever else is
    -- allocated: asked for its encoded public key it gives those bytes, and its private key is gone.
    pub set_params-encoded :
        (pubkey_ok propq_ok : Bool)
        → length bytes ≡ encoded_length key
        → (key' : OqsxKey Pkey) × (set_params pubkey_ok propq_ok key
              (some (octet_string bytes))
              none
            ≡ ok (key', true))
          × (encoded_public_key key' ≡ ok bytes)
          × (key'.privkey ≡ none)
    set_params-encoded pubkey_ok propq_ok e =
        (taken, set_params-taken pubkey_ok propq_ok e, encoded-taken e, refl)
