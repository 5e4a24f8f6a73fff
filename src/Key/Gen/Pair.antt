-- ===== src/Key/Gen/Pair.antt =====
-- oqsx_key_gen on a new hybrid key.
use oqs_provider.Base.{
  ℕ, ◌+◌, ◌-◌, ◌≤◌, ◌<◌, ◌^◌, ◌≡◌, refl, Bool, true, false, none, some, arith, length, ◌==◌, [],
  ◌∷◌,
}
use oqs_provider.Run.{ok}
use oqs_provider.Memory.{Bytes, size_of_uint32, at_offset}
use oqs_provider.Extern.{Evp, Oqs, Alloc, pubkey_site, privkey_site}
use oqs_provider.Key.{
  EvpInfo, OqsxKey, QsCtx, sig_ctx, kem_ctx, KeyType, sig, kem, hyb_sig, ecp_hyb_kem, ecx_hyb_kem,
  other, set_composites, allocate_keymaterial,
}
use oqs_provider.Key.Shape.{IsHybrid, IsNew, FitsType, is_hybrid_type, qs_privlen, qs_publen}
use oqs_provider.Key.Layout.{zeros, framed, components-framed, write_second_fresh}
use oqs_provider.Key.Material.{material}
use oqs_provider.Key.Gen.{
  gen_evp_key, gen_oqs, store_pair, gen_hybrid, gen_by_type, finish, ensure_keymaterial, key_gen,
}
use oqs_provider.Key.Gen.Classical.{ClassicalPair, gen_evp_key-framed}

module _ (evp : Evp) (oqs : Oqs) where
  open evp use {Pkey}

  -- liboqs makes a key pair of the lengths that it tells of.
  abbrev pub OqsPair : QsCtx → (seed : ℕ) → (opub opriv : Bytes) → Type 0
  OqsPair qs seed opub opriv =
      (elim qs [ sig_ctx s ↦ oqs.sig_keypair s seed | kem_ctx k ↦ oqs.kem_keypair k seed ]
        ≡ some (opub, opriv))
      × (length opub ≡ qs_publen qs)
      × (length opriv ≡ qs_privlen qs)

  -- Fresh, zeroed buffers.
  unfoldable pub allocated : OqsxKey Pkey → OqsxKey Pkey
  allocated key = record key {
    pubkey = some (zeros key.pubkeylen);
    privkey = some (zeros key.privkeylen);
  }

  pub ensure_keymaterial-IsNew :
      (alloc : Alloc) (key : OqsxKey Pkey)
      → IsNew key
      → alloc pubkey_site ≡ true
      → alloc privkey_site ≡ true
      → ensure_keymaterial evp oqs alloc key ≡ (allocated key, false)
  unfolding ensure_keymaterial allocate_keymaterial allocated
  ensure_keymaterial-IsNew alloc key new a b = ground arith

  -- liboqs is asked for the kind of key that the type tells of.
  abbrev gen_kem_of : KeyType → Bool
  gen_kem_of hyb_sig = false
  gen_kem_of _ = true

  gen_by_type-hybrid :
      (seed : ℕ) (key : OqsxKey Pkey) (type : KeyType) (qs : QsCtx)
      → is_hybrid_type type ≡ true
      → FitsType type qs
      → gen_by_type evp oqs seed key type ≡ gen_hybrid evp oqs seed key (gen_kem_of type)
  unfolding gen_by_type
  gen_by_type-hybrid seed key hyb_sig qs hyb fits = refl
  gen_by_type-hybrid seed key ecp_hyb_kem qs hyb fits = refl
  gen_by_type-hybrid seed key ecx_hyb_kem qs hyb fits = refl
  gen_by_type-hybrid seed key sig qs hyb fits = absurd cc
  gen_by_type-hybrid seed key kem qs hyb fits = absurd cc
  gen_by_type-hybrid seed key other (sig_ctx s) hyb fits = absurd fits
  gen_by_type-hybrid seed key other (kem_ctx k) hyb fits = absurd fits

  module _ (seed : ℕ) (key : OqsxKey Pkey) (i : EvpInfo) (h : IsHybrid key i) (p : Pkey)
      (cpub cpriv opub opriv : Bytes) (classical : ClassicalPair evp i seed p cpub cpriv)
      (pair : OqsPair key.qs_ctx seed opub opriv) (small_pub : length cpub < 2 ^ 31)
      (small_priv : length cpriv < 2 ^ 31) (fits_pub : length cpub ≤ i.length_public_key)
      (fits_priv : length cpriv ≤ i.length_private_key) where
    -- The key with both pairs in its buffers.
    abbrev filled : OqsxKey Pkey
    filled = material key i p cpub cpriv opub opriv

    abbrev made : OqsxKey Pkey
    made = record key {
      pubkey = some (framed cpub (zeros (length opub + (i.length_public_key - length cpub))));
      privkey = some (framed cpriv (zeros (length opriv + (i.length_private_key - length cpriv))));
    }

    abbrev composed : OqsxKey Pkey
    composed = record made {
      comp_pubkey = at_offset size_of_uint32 ∷ at_offset (length cpub + size_of_uint32) ∷ [];
      comp_privkey = at_offset size_of_uint32 ∷ at_offset (length cpriv + size_of_uint32) ∷ [];
    }

    two_ne_one : (key.numkeys == 1) ≡ false
    two_ne_one = ground (arith, h.two)

    set_composites-made : set_composites made ≡ ok composed
    unfolding set_composites
    set_composites-made =
        rw (two_ne_one, components-framed cpriv small_priv, components-framed cpub small_pub)

    store_pair-composed :
        (qs : QsCtx)
        → store_pair evp oqs
            (record composed { classical_pkey = some p; qs_ctx = qs })
            (some (opub, opriv))
          ≡ ok (record filled { qs_ctx = qs }, false)
    unfolding store_pair
    store_pair-composed qs = rw (
      h.two,
      write_second_fresh cpub opub _ (i.length_public_key - length cpub) refl,
      write_second_fresh cpriv opriv _ (i.length_private_key - length cpriv) refl,
    )

    gen_oqs-composed :
        (qs : QsCtx) (type : KeyType)
        → is_hybrid_type type ≡ true
        → FitsType type qs
        → OqsPair qs seed opub opriv
        → gen_oqs evp oqs seed
            (record composed { classical_pkey = some p; qs_ctx = qs })
            (gen_kem_of type)
          ≡ ok (record filled { qs_ctx = qs }, false)
    unfolding gen_oqs
    gen_oqs-composed (sig_ctx s) hyb_sig hyb fits pr = rw pr.0 (store_pair-composed (sig_ctx s))
    gen_oqs-composed (kem_ctx k) ecp_hyb_kem hyb fits pr = rw pr.0 (store_pair-composed (kem_ctx k))
    gen_oqs-composed (kem_ctx k) ecx_hyb_kem hyb fits pr = rw pr.0 (store_pair-composed (kem_ctx k))
    gen_oqs-composed (kem_ctx k) hyb_sig hyb fits pr = absurd fits
    gen_oqs-composed (sig_ctx s) ecp_hyb_kem hyb fits pr = absurd fits
    gen_oqs-composed (sig_ctx s) ecx_hyb_kem hyb fits pr = absurd fits
    gen_oqs-composed (sig_ctx s) sig hyb fits pr = absurd cc
    gen_oqs-composed (sig_ctx s) kem hyb fits pr = absurd cc
    gen_oqs-composed (sig_ctx s) other hyb fits pr = absurd fits
    gen_oqs-composed (kem_ctx k) sig hyb fits pr = absurd cc
    gen_oqs-composed (kem_ctx k) kem hyb fits pr = absurd cc
    gen_oqs-composed (kem_ctx k) other hyb fits pr = absurd fits

    gen_hybrid-framed :
        gen_hybrid evp oqs seed (allocated key) (gen_kem_of key.keytype) ≡ ok (filled, false)
    unfolding gen_hybrid allocated
    gen_hybrid-framed =
        rw
          (
            h.info,
            gen_evp_key-framed evp i p cpub cpriv
                (length opub + (i.length_public_key - length cpub))
                (length opriv + (i.length_private_key - length cpriv)) key.pubkeylen key.privkeylen
                (omega (arith, h.publen, pair.1)) (omega (arith, h.privlen, pair.2)) seed classical,
          )
          (rw (← h.info, set_composites-made)
            (gen_oqs-composed key.qs_ctx key.keytype h.type h.fits pair))

    -- Key generation of a new hybrid key, when the allocations, OpenSSL and liboqs deliver, succeeds and
    -- fills both buffers: the header with the length of the classical key, that key, liboqs' key and
    -- zeros; the components point to the two keys, and the classical key object is kept.
    pub key_gen-hybrid :
        (alloc : Alloc)
        → IsNew key
        → alloc pubkey_site ≡ true
        → alloc privkey_site ≡ true
        → key_gen evp oqs alloc seed key ≡ ok (material key i p cpub cpriv opub opriv, false)
    unfolding key_gen finish
    key_gen-hybrid alloc new a b = rw (
      ensure_keymaterial-IsNew alloc key new a b,
      gen_by_type-hybrid seed (allocated key) key.keytype key.qs_ctx h.type h.fits,
      gen_hybrid-framed,
    )

-- Where OpenSSL makes no classical key, key generation of a new hybrid key still reports success (a
-- return value of 0) and leaves zeroed buffers and no classical key object.
pub key_gen-no_classical :
    (evp : Evp) (oqs : Oqs) (alloc : Alloc) (seed : ℕ) (key : OqsxKey evp.Pkey) (i : EvpInfo)
    → IsHybrid key i
    → IsNew key
    → alloc pubkey_site ≡ true
    → alloc privkey_site ≡ true
    → evp.keygen i.keytype i.nid seed ≡ none
    → key_gen evp oqs alloc seed key
      ≡ ok (
        record key { pubkey = some (zeros key.pubkeylen); privkey = some (zeros key.privkeylen) },
        false,
      )
unfolding key_gen finish gen_hybrid gen_evp_key allocated
key_gen-no_classical evp oqs alloc seed key i h new a b failed =
    rw
      (
        ensure_keymaterial-IsNew evp oqs alloc key new a b,
        gen_by_type-hybrid evp oqs seed (allocated evp oqs key) key.keytype key.qs_ctx h.type
            h.fits,
      )
      (rw (h.info, gen_evp_key, failed) (rw (← h.info)))
