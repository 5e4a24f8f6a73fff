-- ===== src/Key/New/Shaped.antt =====
-- What oqsx_key_new returns.
use Prim.Native.String.{String}
use oqs_provider.Base.{ℕ, ◌≡◌, refl, inl, inr, Option, none, some, arith, Bool, true, false}
use oqs_provider.Run.{ok, Post, Post-bind, Post_ok, ensure, malloc_failure}
use oqs_provider.Extern.{OqsName, OqsKem, Evp, Oqs, Alloc, key_site, evp_ctx_site, propq_site}
use oqs_provider.Key.{
  KeyType, sig, kem, ecp_hyb_kem, ecx_hyb_kem, hyb_sig, other, OqsxKey, EvpInfo, QsCtx, sig_ctx,
  kem_ctx,
}
use oqs_provider.Key.Shape.{IsNew, IsShaped, FitsType, is_hybrid_type, qs_privlen, qs_publen}
use oqs_provider.Key.New.{
  key_new, by_primitive, with_propq, plain_key, hybrid_key, new_hyb_kem, or_err, init_kex,
  hybsig_init,
}

module _ (evp : Evp) (oqs : Oqs) (alloc : Alloc) where
  open evp use {Pkey}

  abbrev IsMade : KeyType → OqsxKey Pkey → Type 0
  IsMade type key = IsShaped key × IsNew key × (key.keytype ≡ type)

  plain_key-IsMade :
      (type : KeyType) (qs : QsCtx) (bits : ℕ) (tls : String)
      → is_hybrid_type type ≡ false
      → FitsType type qs
      → IsMade type (plain_key evp type qs (qs_privlen qs) (qs_publen qs) bits tls)
  unfolding plain_key
  plain_key-IsMade type qs bits tls plain fits = (
    inl (record {
      one = refl;
      no_info = refl;
      type = plain;
      fits = fits;
      publen = refl;
      privlen = refl;
    }),
    record { one_reference = refl; no_pubkey = refl; no_privkey = refl; no_classical = refl },
    refl,
  )

  hybrid_key-IsMade :
      (type : KeyType) (qs : QsCtx) (bits : ℕ) (tls : String) (i : EvpInfo)
      → is_hybrid_type type ≡ true
      → FitsType type qs
      → IsMade type (hybrid_key evp type qs (qs_privlen qs) (qs_publen qs) bits tls i)
  unfolding hybrid_key
  hybrid_key-IsMade type qs bits tls i hybrid fits = (
    inr (
      i,
      record { two = refl; info = refl; type = hybrid; fits = fits; publen = refl; privlen = refl },
    ),
    record { one_reference = refl; no_pubkey = refl; no_privkey = refl; no_classical = refl },
    refl,
  )

  new_hyb_kem-IsMade :
      (name : OqsName) (tls : String) (type : KeyType) (ecx : Bool) (bits : ℕ)
      → is_hybrid_type type ≡ true
      → ((k : OqsKem) → FitsType type (kem_ctx k))
      → Post (IsMade type) (new_hyb_kem evp oqs alloc name tls type ecx bits)
  unfolding new_hyb_kem
  new_hyb_kem-IsMade name tls type ecx bits hybrid fits =
      Post-bind _ (or_err evp (oqs.kem_new name)) _ λ k _.
        Post-bind _ (ensure (alloc evp_ctx_site) malloc_failure) _ λ _ _.
          Post-bind _ (init_kex evp ecx tls) _ λ found _.
            Post-bind _ (or_err evp found) _
              λ i _. hybrid_key-IsMade type (kem_ctx k) bits tls i hybrid (fits k)

  by_primitive-IsMade :
      (name : OqsName) (tls : String) (type : KeyType) (bits : ℕ)
      → Post (IsMade type) (by_primitive evp oqs alloc name tls type bits)
  unfolding by_primitive
  by_primitive-IsMade name tls sig bits =
      Post-bind _ (or_err evp (oqs.sig_new name)) _
        λ s _. plain_key-IsMade sig (sig_ctx s) bits tls refl tt
  by_primitive-IsMade name tls kem bits =
      Post-bind _ (or_err evp (oqs.kem_new name)) _
        λ k _. plain_key-IsMade kem (kem_ctx k) bits tls refl tt
  by_primitive-IsMade name tls ecx_hyb_kem bits =
      new_hyb_kem-IsMade name tls ecx_hyb_kem true bits refl (λ k. tt)
  by_primitive-IsMade name tls ecp_hyb_kem bits =
      new_hyb_kem-IsMade name tls ecp_hyb_kem false bits refl (λ k. tt)
  by_primitive-IsMade name tls hyb_sig bits = Post-bind _ (or_err evp (oqs.sig_new name)) _ λ s _.
      Post-bind _ (ensure (alloc evp_ctx_site) malloc_failure) _ λ _ _.
        Post-bind _ (or_err evp (hybsig_init evp bits tls)) _
          λ i _. hybrid_key-IsMade hyb_sig (sig_ctx s) bits tls i refl tt
  by_primitive-IsMade name tls other bits = tt

  with_propq-IsMade :
      (type : KeyType) (propq : Option String) (key : OqsxKey Pkey)
      → IsMade type key
      → Post (IsMade type) (with_propq evp alloc propq key)
  unfolding with_propq
  with_propq-IsMade type none key h = h
  with_propq-IsMade type (some q) key h =
      Post-bind _ (ensure (alloc propq_site) malloc_failure) _ λ _ _. ground arith

  -- A key that oqsx_key_new returns is of the type that was asked for, has the union member of that
  -- type and buffer lengths for its components, one reference and no key material.
  pub key_new-IsShaped :
      (oqs_name : Option OqsName) (tls_name : Option String) (primitive : KeyType)
      (propq : Option String) (bits : ℕ) (key : OqsxKey Pkey)
      → key_new evp oqs alloc oqs_name tls_name primitive propq bits ≡ ok key
      → IsShaped key × IsNew key × (key.keytype ≡ primitive)
  unfolding key_new
  key_new-IsShaped oqs_name tls_name primitive propq bits key = Post_ok (IsMade primitive) _ (
      Post-bind _ (ensure (alloc key_site) malloc_failure) _ λ _ _.
        Post-bind _ (or_err evp oqs_name) _ λ name _. Post-bind _ (or_err evp tls_name) _ λ tls _.
          Post-bind _ (by_primitive evp oqs alloc name tls primitive bits) _ λ made e.
            with_propq-IsMade primitive propq made
              (Post_ok (IsMade primitive) _ (by_primitive-IsMade name tls primitive bits) e))
