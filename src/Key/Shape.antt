-- ===== src/Key/Shape.antt =====
-- The shape of a key object: which member of the union stands in it, and how long its buffers are.
use oqs_provider.Base.{ℕ, ◌+◌, ◌≡◌, ◌⊎◌, none, some, Bool, true, false}
use oqs_provider.Memory.{size_of_uint32}
use oqs_provider.Key.{
  KeyType, sig, kem, ecp_hyb_kem, ecx_hyb_kem, hyb_sig, EvpInfo, QsCtx, sig_ctx, kem_ctx, OqsxKey,
}

abbrev pub qs_publen : QsCtx → ℕ
qs_publen (sig_ctx s) = s.length_public_key
qs_publen (kem_ctx k) = k.length_public_key

abbrev pub qs_privlen : QsCtx → ℕ
qs_privlen (sig_ctx s) = s.length_secret_key
qs_privlen (kem_ctx k) = k.length_secret_key

-- A signature type has an `OQS_SIG`, a KEM type an `OQS_KEM`.
abbrev pub FitsType : KeyType → QsCtx → Type 0
FitsType sig (sig_ctx s) = Unit
FitsType hyb_sig (sig_ctx s) = Unit
FitsType kem (kem_ctx k) = Unit
FitsType ecp_hyb_kem (kem_ctx k) = Unit
FitsType ecx_hyb_kem (kem_ctx k) = Unit
FitsType _ _ = ⊥

abbrev pub is_hybrid_type : KeyType → Bool
is_hybrid_type sig = false
is_hybrid_type kem = false
is_hybrid_type _ = true

module _ {Pkey : Type 0} where
  pub record IsPlain (key : OqsxKey Pkey) : Type 0 where
    pub one : key.numkeys ≡ 1
    pub no_info : key.evp_info ≡ none
    pub type : is_hybrid_type key.keytype ≡ false
    pub fits : FitsType key.keytype key.qs_ctx
    pub publen : key.pubkeylen ≡ qs_publen key.qs_ctx
    pub privlen : key.privkeylen ≡ qs_privlen key.qs_ctx

  -- The buffers have room for the header and both keys.
  pub record IsHybrid (key : OqsxKey Pkey) (i : EvpInfo) : Type 0 where
    pub two : key.numkeys ≡ 2
    pub info : key.evp_info ≡ some i
    pub type : is_hybrid_type key.keytype ≡ true
    pub fits : FitsType key.keytype key.qs_ctx
    pub publen : key.pubkeylen ≡ size_of_uint32 + qs_publen key.qs_ctx + i.length_public_key
    pub privlen : key.privkeylen ≡ size_of_uint32 + qs_privlen key.qs_ctx + i.length_private_key

  -- One reference, and nothing in the buffers.
  pub record IsNew (key : OqsxKey Pkey) : Type 0 where
    pub one_reference : key.references ≡ 1
    pub no_pubkey : key.pubkey ≡ none
    pub no_privkey : key.privkey ≡ none
    pub no_classical : key.classical_pkey ≡ none

  abbrev pub IsShaped : OqsxKey Pkey → Type 0
  IsShaped key = IsPlain key ⊎ ((i : EvpInfo) × IsHybrid key i)
