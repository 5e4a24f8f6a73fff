-- ===== src/Key/Lengths.antt =====
-- The length of the liboqs public key in a key.
use oqs_provider.Base.{false, ◌≡◌, refl, true, some}
use oqs_provider.Run.{ok}
use oqs_provider.Key.{
  OqsxKey, QsCtx, sig_ctx, kem_ctx, KeyType, sig, kem, hyb_sig, ecp_hyb_kem, ecx_hyb_kem, other,
  get_oqs_public_key_len,
}
use oqs_provider.Key.Shape.{FitsType, is_hybrid_type, qs_publen}

module _ {Pkey : Type 0} where
  pub oqs_len-hybrid :
      (key : OqsxKey Pkey) (type : KeyType) (qs : QsCtx)
      → is_hybrid_type type ≡ true
      → FitsType type qs
      → get_oqs_public_key_len (record key { keytype = type; qs_ctx = qs })
        ≡ ok (some (qs_publen qs))
  unfolding get_oqs_public_key_len
  oqs_len-hybrid key hyb_sig (sig_ctx s) hyb fits = refl
  oqs_len-hybrid key ecp_hyb_kem (kem_ctx k) hyb fits = refl
  oqs_len-hybrid key ecx_hyb_kem (kem_ctx k) hyb fits = refl
  oqs_len-hybrid key hyb_sig (kem_ctx k) hyb fits = absurd fits
  oqs_len-hybrid key ecp_hyb_kem (sig_ctx s) hyb fits = absurd fits
  oqs_len-hybrid key ecx_hyb_kem (sig_ctx s) hyb fits = absurd fits
  oqs_len-hybrid key sig qs hyb fits = absurd cc
  oqs_len-hybrid key kem qs hyb fits = absurd cc
  oqs_len-hybrid key other (sig_ctx s) hyb fits = absurd fits
  oqs_len-hybrid key other (kem_ctx k) hyb fits = absurd fits

  pub oqs_len-plain :
      (key : OqsxKey Pkey) (type : KeyType)
      → is_hybrid_type type ≡ false
      → get_oqs_public_key_len (record key { keytype = type }) ≡ ok (some key.pubkeylen)
  unfolding get_oqs_public_key_len
  oqs_len-plain key sig plain = refl
  oqs_len-plain key kem plain = refl
  oqs_len-plain key hyb_sig plain = absurd cc
  oqs_len-plain key ecp_hyb_kem plain = absurd cc
  oqs_len-plain key ecx_hyb_kem plain = absurd cc
  oqs_len-plain key other plain = absurd cc
