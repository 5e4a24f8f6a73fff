-- ===== src/Key/Gen/Plain.antt =====
-- oqsx_key_gen on a new key of liboqs alone.
use oqs_provider.Base.{
  ℕ, ◌≡◌, refl, sym, true, false, some, length, [], ◌∷◌, ◌∙◌, append-nil, length-replicate,
}
use oqs_provider.Run.{ok}
use oqs_provider.Memory.{Bytes, at_offset, write}
use oqs_provider.Memory.Laws.{write_at}
use oqs_provider.Extern.{Evp, Oqs, Alloc, pubkey_site, privkey_site}
use oqs_provider.Key.{OqsxKey, QsCtx, sig_ctx, kem_ctx, KeyType, sig, kem, set_composites}
use oqs_provider.Key.Shape.{IsPlain, IsNew, FitsType, is_hybrid_type}
use oqs_provider.Key.Layout.{zeros}
use oqs_provider.Key.Gen.{gen_oqs, store_pair, gen_plain, gen_by_type, finish, key_gen}
use oqs_provider.Key.Gen.Pair.{OqsPair, allocated, ensure_keymaterial-IsNew}

write_all : (old bs : Bytes) → length bs ≡ length old → write old 0 bs ≡ ok bs
write_all old bs e = rw (← append-nil old) (rw (write_at [] old [] bs 0 refl e, append-nil))

module _ (evp : Evp) (oqs : Oqs) (seed : ℕ) where
  open evp use {Pkey}

  module _ (key : OqsxKey Pkey) (h : IsPlain key) (opub opriv : Bytes)
      (pair : OqsPair evp oqs key.qs_ctx seed opub opriv) where
    abbrev filled : OqsxKey Pkey
    filled = record key {
      pubkey = some opub;
      privkey = some opriv;
      comp_pubkey = at_offset 0 ∷ [];
      comp_privkey = at_offset 0 ∷ [];
    }

    abbrev composed : OqsxKey Pkey
    composed = record (allocated evp oqs key) {
      comp_pubkey = at_offset 0 ∷ [];
      comp_privkey = at_offset 0 ∷ [];
    }

    set_composites-allocated : set_composites (allocated evp oqs key) ≡ ok composed
    unfolding set_composites allocated
    set_composites-allocated = rw h.one

    store_pair-composed :
        (qs : QsCtx)
        → store_pair evp oqs (record composed { qs_ctx = qs }) (some (opub, opriv))
          ≡ ok (record filled { qs_ctx = qs }, false)
    unfolding store_pair allocated
    store_pair-composed qs = rw (
      h.one,
      write_all (zeros key.pubkeylen) opub
          (pair.1 ∙ sym h.publen ∙ sym (length-replicate key.pubkeylen 0)),
      write_all (zeros key.privkeylen) opriv
          (pair.2 ∙ sym h.privlen ∙ sym (length-replicate key.privkeylen 0)),
    )

    gen_by_type-allocated :
        (qs : QsCtx) (type : KeyType)
        → is_hybrid_type type ≡ false
        → FitsType type qs
        → OqsPair evp oqs qs seed opub opriv
        → set_composites (record (allocated evp oqs key) { qs_ctx = qs })
          ≡ ok (record composed { qs_ctx = qs })
        → gen_by_type evp oqs seed (record (allocated evp oqs key) { qs_ctx = qs }) type
          ≡ ok (record filled { qs_ctx = qs }, false)
    unfolding gen_by_type gen_plain gen_oqs
    gen_by_type-allocated (sig_ctx s) sig plain fits pr e =
        rw (e, pr.0) (store_pair-composed (sig_ctx s))
    gen_by_type-allocated (kem_ctx k) kem plain fits pr e =
        rw (e, pr.0) (store_pair-composed (kem_ctx k))
    gen_by_type-allocated (kem_ctx k) sig plain fits pr e = absurd fits
    gen_by_type-allocated (sig_ctx s) kem plain fits pr e = absurd fits
    gen_by_type-allocated qs _ plain fits pr e = absurd cc

    -- Key generation of a new key of liboqs alone, when the allocations and liboqs deliver, succeeds,
    -- and the two buffers are liboqs' key pair, each of them its one component.
    pub key_gen-plain :
        (alloc : Alloc)
        → IsNew key
        → alloc pubkey_site ≡ true
        → alloc privkey_site ≡ true
        → key_gen evp oqs alloc seed key
          ≡ ok (
            record key {
              pubkey = some opub;
              privkey = some opriv;
              comp_pubkey = at_offset 0 ∷ [];
              comp_privkey = at_offset 0 ∷ [];
            },
            false,
          )
    unfolding key_gen finish allocated
    key_gen-plain alloc new a b = rw (
      ensure_keymaterial-IsNew evp oqs alloc key new a b,
      gen_by_type-allocated key.qs_ctx key.keytype h.type h.fits pair set_composites-allocated,
    )
