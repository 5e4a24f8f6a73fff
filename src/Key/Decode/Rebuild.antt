-- ===== src/Key/Decode/Rebuild.antt =====
-- The classical key object of a hybrid key from its buffers: oqsx_key_set_composites and then
-- oqsx_key_recreate_classickey.
use oqs_provider.Base.{
  equal, ◌+◌, ◌-◌, ◌<◌, ◌^◌, ◌≡◌, refl, true, false, none, some, arith, length, ◌==◌, if◌then◌else◌,
  ◌++◌, [], ◌∷◌,
}
use oqs_provider.Run.{ok, ◌>>=◌}
use oqs_provider.Memory.{Bytes, size_of_uint32, at_offset, null}
use oqs_provider.Memory.Laws.{int_to_size_small}
use oqs_provider.Extern.{Evp}
use oqs_provider.Key.{EvpInfo, OqsxKey, set_composites}
use oqs_provider.Key.Shape.{IsHybrid}
use oqs_provider.Key.Layout.{
  zeros, framed, components-framed, decode-framed, read_first, write_first,
}
use oqs_provider.Key.Material.{material}
use oqs_provider.Key.Decode.{
  op_public, op_private, curve_of, recreate_classickey, recreate_by_op, recreate_private,
  recreate_private_pub, store_public, recreate_public,
}

module _ (evp : Evp) where
  open evp use {Pkey}

  -- OpenSSL reads the key `q` from the private bytes and encodes its public half as `cpub`, of exactly the
  -- length that the row `i` tells of.
  pub data FromPrivate (i : EvpInfo) (q : Pkey) (cpub cpriv : Bytes) : Type 0 where
    raw_key :
        i.raw_key_support ≡ true
        → evp.new_raw_private_key i.keytype cpriv ≡ some q
        → evp.get_raw_public_key q ≡ some cpub
        → length cpub ≡ i.length_public_key
        → FromPrivate i q cpub cpriv
    der_key :
        i.raw_key_support ≡ false
        → evp.d2i_private_key i.keytype cpriv ≡ some q
        → evp.i2d_public_key q ≡ some cpub
        → length cpub ≡ i.length_public_key
        → FromPrivate i q cpub cpriv

  -- OpenSSL reads the key `q` from the public bytes.
  abbrev pub FromPublic : EvpInfo → Pkey → Bytes → Type 0
  FromPublic i q cpub =
      (if i.raw_key_support
        then evp.new_raw_public_key i.keytype cpub
        else evp.d2i_public_key i.keytype (curve_of evp i) cpub)
      ≡ some q

  module _ (key : OqsxKey Pkey) (i : EvpInfo) (h : IsHybrid key i) (q : Pkey)
      (c0 cpub cpriv opub opriv : Bytes) (same_size : length cpub ≡ length c0)
      (small_pub : length cpub < 2 ^ 31) (small_priv : length cpriv < 2 ^ 31) where
    -- A key whose buffers hold both pairs, with `c0` where the classical public key is to be.
    abbrev pub loaded : OqsxKey Pkey
    loaded = record key {
      pubkey = some (framed c0 (opub ++ zeros (i.length_public_key - length c0)));
      privkey = some (framed cpriv (opriv ++ zeros (i.length_private_key - length cpriv)));
    }

    abbrev composed : OqsxKey Pkey
    composed = record loaded {
      comp_pubkey = at_offset size_of_uint32 ∷ at_offset (length cpub + size_of_uint32) ∷ [];
      comp_privkey = at_offset size_of_uint32 ∷ at_offset (length cpriv + size_of_uint32) ∷ [];
    }

    two_ne_one : (key.numkeys == 1) ≡ false
    two_ne_one = ground (arith, h.two)

    set_composites-loaded : set_composites loaded ≡ ok composed
    unfolding set_composites
    set_composites-loaded =
        rw (two_ne_one, components-framed cpriv small_priv, components-framed c0 small0, same_size)
      where
        small0 : length c0 < 2 ^ 31
        small0 = omega (arith, same_size, small_pub)

    store_public-loaded :
        store_public evp i (record composed { classical_pkey = some q }) cpub
        ≡ ok (material key i q cpub cpriv opub opriv)
    unfolding store_public
    store_public-loaded =
        rw (
          write_first c0 cpub (opub ++ zeros (i.length_public_key - length c0)) same_size,
          same_size,
        )

    recreate_private-loaded :
        FromPrivate i q cpub cpriv
        → recreate_private evp i composed ≡ ok (material key i q cpub cpriv opub opriv)
    unfolding recreate_private recreate_private_pub
    recreate_private-loaded (raw_key raw e1 e2 len) =
        rw
          (
            decode-framed cpriv small_priv,
            int_to_size_small (length cpriv) small_priv,
            read_first cpriv (opriv ++ zeros (i.length_private_key - length cpriv)) (length cpriv)
                refl,
          )
          (rw (raw, e1) (rw (e2, equal _ _ len) store_public-loaded))
    recreate_private-loaded (der_key raw e1 e2 len) =
        rw
          (
            decode-framed cpriv small_priv,
            int_to_size_small (length cpriv) small_priv,
            read_first cpriv (opriv ++ zeros (i.length_private_key - length cpriv)) (length cpriv)
                refl,
          )
          (rw (raw, e1) (rw (e2, store_public-loaded, equal _ _ len)))

    -- From buffers that hold a private key, the classical key and its public half are made again.
    pub rebuild-private :
        FromPrivate i q cpub cpriv
        → (set_composites loaded >>= λ k. recreate_classickey evp k op_private)
          ≡ ok (material key i q cpub cpriv opub opriv)
    unfolding recreate_classickey recreate_by_op
    rebuild-private made =
        rw (set_composites-loaded)
          (rw (is_two) (rw (h.info) (rw (← h.info) (recreate_private-loaded made))))
      where
        is_two : (key.numkeys == 2) ≡ true
        is_two = ground (arith, h.two)

  module _ (key : OqsxKey Pkey) (i : EvpInfo) (h : IsHybrid key i) (q : Pkey) (cpub opub : Bytes)
      (small : length cpub < 2 ^ 31) where
    -- A key that holds the public half alone.
    abbrev pub public_half : OqsxKey Pkey
    public_half = record key {
      classical_pkey = some q;
      pubkey = some (framed cpub (opub ++ zeros (i.length_public_key - length cpub)));
      privkey = none;
      comp_pubkey = at_offset size_of_uint32 ∷ at_offset (length cpub + size_of_uint32) ∷ [];
      comp_privkey = null ∷ null ∷ [];
    }

    abbrev pub public_loaded : OqsxKey Pkey
    public_loaded = record key {
      pubkey = some (framed cpub (opub ++ zeros (i.length_public_key - length cpub)));
      privkey = none;
    }

    set_composites-public :
        set_composites public_loaded
        ≡ ok (record public_half { classical_pkey = key.classical_pkey })
    unfolding set_composites
    set_composites-public = rw (not_one, components-framed cpub small)
      where
        not_one : (key.numkeys == 1) ≡ false
        not_one = ground (arith, h.two)

    recreate_public-loaded :
        FromPublic i q cpub
        → recreate_public evp i (record public_half { classical_pkey = key.classical_pkey })
          ≡ ok public_half
    unfolding recreate_public
    recreate_public-loaded made =
        rw (decode-framed cpub small, int_to_size_small (length cpub) small)
          (rw (
            read_first cpub (opub ++ zeros (i.length_public_key - length cpub)) (length cpub) refl,
            made,
          ))

    -- From a buffer that holds a public key, the classical key is made again.
    pub rebuild-public :
        FromPublic i q cpub
        → (set_composites public_loaded >>= λ k. recreate_classickey evp k op_public)
          ≡ ok public_half
    unfolding recreate_classickey recreate_by_op
    rebuild-public made =
        rw (set_composites-public)
          (rw (is_two) (rw (h.info) (rw (← h.info) (recreate_public-loaded made))))
      where
        is_two : (key.numkeys == 2) ≡ true
        is_two = ground (arith, h.two)
