-- ===== src/Key/Decode/Plain.antt =====
-- The bytes of an encoded key of liboqs alone, read into a new key.
use oqs_provider.Base.{
  equal, ◌+◌, ◌-◌, ◌≡◌, refl, sym, true, false, some, arith, length, ◌==◌, ◌++◌, [], length-append,
  ◌∙◌,
}
use oqs_provider.Run.{ok}
use oqs_provider.Memory.{Bytes}
use oqs_provider.Memory.Laws.{read_at, read_rest}
use oqs_provider.Extern.{Evp, Alloc, pubkey_site, privkey_site}
use oqs_provider.Key.{OqsxKey, set_composites, allocate_keymaterial}
use oqs_provider.Key.Shape.{IsPlain, IsNew, qs_publen, qs_privlen}
use oqs_provider.Key.Layout.{zeros, write_all}
use oqs_provider.Key.Lengths.{oqs_len-plain}
use oqs_provider.Key.Material.{plain_material}
use oqs_provider.Key.Decode.{
  op_private, fill_key, load_by_op, load_private, actual_privkeylen, place_oqs_public,
  recreate_classickey, allocated,
}

module _ (evp : Evp) where
  open evp use {Pkey}

  module _ (key : OqsxKey Pkey) (h : IsPlain key) (new : IsNew key) (opub opriv : Bytes)
      (opub_len : length opub ≡ qs_publen key.qs_ctx)
      (opriv_len : length opriv ≡ qs_privlen key.qs_ctx) where
    not_two : (key.numkeys == 2) ≡ false
    not_two = ground (arith, h.one)

    abbrev fresh : OqsxKey Pkey
    fresh = record key {
      privkey = some (zeros key.privkeylen);
      pubkey = some (zeros key.pubkeylen);
    }

    allocated-private :
        (alloc : Alloc)
        → alloc privkey_site ≡ true
        → allocated evp alloc key true ≡ ok (record key { privkey = some (zeros key.privkeylen) })
    unfolding allocate_keymaterial
    allocated-private alloc a = simp (new.no_privkey, allocate_keymaterial, a)

    allocated-public :
        (alloc : Alloc)
        → alloc pubkey_site ≡ true
        → allocated evp alloc (record key { privkey = some (zeros key.privkeylen) }) false
          ≡ ok fresh
    unfolding allocate_keymaterial
    allocated-public alloc a = simp (new.no_pubkey, allocate_keymaterial, a)

    private_length : key.privkeylen ≡ length opriv
    private_length = h.privlen ∙ sym opriv_len

    public_length : key.pubkeylen ≡ length opub
    public_length = h.publen ∙ sym opub_len

    load_private-plain :
        (alloc : Alloc)
        → alloc privkey_site ≡ true
        → alloc pubkey_site ≡ true
        → load_private evp alloc key (opriv ++ opub)
          ≡ ok (record key { pubkey = some opub; privkey = some opriv })
    unfolding load_private actual_privkeylen place_oqs_public
    load_private-plain alloc a b = rw (not_two) (
        rw (oqs_len-plain key key.keytype h.type) (
          rw (equal _ _ whole_length, allocated-private alloc a)
            (rw (allocated-public alloc b) (
              rw
                (
                  read_at [] opriv opub 0 key.privkeylen refl private_length,
                  write_all opriv key.privkeylen private_length,
                  read_rest opriv opub key.privkeylen _ private_length rest_length,
                )
                (rw (not_two, write_all opub key.pubkeylen public_length))))))
      where
        whole_length : key.privkeylen + key.pubkeylen ≡ length (opriv ++ opub)
        whole_length = omega (arith, private_length, public_length, length-append opriv opub)

        rest_length : length (opriv ++ opub) - key.privkeylen ≡ length opub
        rest_length = omega (arith, private_length, length-append opriv opub)

    -- Reading the bytes of a private key of liboqs alone (liboqs' private key and its public key) into a new
    -- key of that algorithm, when the allocations succeed, succeeds, and both buffers hold their part.
    pub fill_key-plain :
        (alloc : Alloc)
        → alloc privkey_site ≡ true
        → alloc pubkey_site ≡ true
        → fill_key evp alloc key (opriv ++ opub) op_private ≡ ok (plain_material key opub opriv)
    unfolding fill_key load_by_op set_composites recreate_classickey
    fill_key-plain alloc a b =
        rw (load_private-plain alloc a b) (rw (equal _ _ h.one) (rw (not_two)))
