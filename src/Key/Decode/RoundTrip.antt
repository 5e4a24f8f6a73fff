-- ===== src/Key/Decode/RoundTrip.antt =====
-- The bytes of an encoded hybrid key, read into a new key.
use oqs_provider.Base.{
  equal, ℕ, ◌+◌, ◌-◌, ◌≤◌, ◌<◌, ◌^◌, ◌≡◌, refl, sym, ap, ◌∙◌, true, false, some, arith, length,
  ◌==◌, ◌++◌, [], leb, append_assoc, drop-replicate, length-append, length-replicate,
}
use oqs_provider.Run.{ok}
use oqs_provider.Memory.{Bytes, size_of_uint32, int_to_size, write, encode_uint32, decode_uint32}
use oqs_provider.Memory.Laws.{
  decode-encode, write_at, int_to_size_small, read_at, read_rest, write_front, le→leb,
  length-encode_uint32,
}
use oqs_provider.Extern.{Evp, Alloc, pubkey_site, privkey_site}
use oqs_provider.Key.{EvpInfo, OqsxKey, allocate_keymaterial}
use oqs_provider.Key.Shape.{IsHybrid, IsNew, qs_publen, qs_privlen}
use oqs_provider.Key.Layout.{zeros, framed, length-framed, replicate-add, write_behind_first}
use oqs_provider.Key.Lengths.{oqs_len-hybrid}
use oqs_provider.Key.Material.{material}
use oqs_provider.Key.Decode.{
  op_private, fill_key, load_by_op, load_private, actual_privkeylen, place_oqs_public, allocated,
}
use oqs_provider.Key.Decode.Rebuild.{FromPrivate, raw_key, der_key, rebuild-private}

module _ (evp : Evp) where
  open evp use {Pkey}

  sub_self : (n : ℕ) → n - n ≡ 0
  sub_self n = omega arith

  module _ (key : OqsxKey Pkey) (i : EvpInfo) (h : IsHybrid key i) (new : IsNew key) (q : Pkey)
      (cpub cpriv opub opriv : Bytes) (small_pub : length cpub < 2 ^ 31)
      (small_priv : length cpriv < 2 ^ 31) (opub_len : length opub ≡ qs_publen key.qs_ctx)
      (opriv_len : length opriv ≡ qs_privlen key.qs_ctx)
      (fits_priv : length cpriv ≤ i.length_private_key) where
    abbrev encoded : Bytes
    encoded = framed cpriv opriv ++ opub

    is_two : (key.numkeys == 2) ≡ true
    is_two = ground (arith, h.two)

    decode_encoded : decode_uint32 encoded ≡ ok (length cpriv)
    decode_encoded =
        rw (append_assoc (encode_uint32 (length cpriv)) (cpriv ++ opriv) opub)
          (decode-encode (length cpriv) ((cpriv ++ opriv) ++ opub) ∙ ap ok (omega arith))

    fits : leb (int_to_size (length cpriv)) i.length_private_key ≡ true
    fits = rw (int_to_size_small (length cpriv) small_priv) (le→leb _ _ fits_priv)

    actual_privkeylen-encoded :
        actual_privkeylen evp key encoded ≡ ok (size_of_uint32 + (length cpriv + length opriv))
    unfolding actual_privkeylen
    actual_privkeylen-encoded =
        simp (is_two, decode_encoded, h.info, fits)
          (ap ok (omega (arith, h.privlen, opriv_len, int_to_size_small (length cpriv) small_priv)))

    -- The buffers, fresh and zeroed.
    abbrev fresh : OqsxKey Pkey
    fresh = record key {
      privkey = some (zeros key.privkeylen);
      pubkey = some (zeros key.pubkeylen);
    }

    write_private :
        write (zeros key.privkeylen) 0 (framed cpriv opriv)
        ≡ ok (framed cpriv (opriv ++ zeros (i.length_private_key - length cpriv)))
    write_private =
        write_front (zeros key.privkeylen) (framed cpriv opriv) (
          omega (
            arith,
            length-framed cpriv opriv,
            length-replicate {A = ℕ} key.privkeylen 0,
            h.privlen,
            opriv_len,
            fits_priv,
          ))
        ∙ ap ok (
            rw (
              drop-replicate {A = ℕ} (length (framed cpriv opriv)) key.privkeylen 0,
              remaining,
              append_assoc (encode_uint32 (length cpriv)) (cpriv ++ opriv)
                  (zeros (i.length_private_key - length cpriv)),
              append_assoc cpriv opriv (zeros (i.length_private_key - length cpriv)),
            ))
      where
        remaining :
            key.privkeylen - length (framed cpriv opriv) ≡ i.length_private_key - length cpriv
        remaining = omega (arith, length-framed cpriv opriv, h.privlen, opriv_len, fits_priv)

    write_header_fresh :
        write (zeros key.pubkeylen) 0 (encode_uint32 i.length_public_key)
        ≡ ok (framed (zeros i.length_public_key) (zeros (length opub)))
    write_header_fresh =
        rw
          (
            split,
            replicate-add size_of_uint32 (i.length_public_key + length opub),
            replicate-add i.length_public_key (length opub),
            length-replicate {A = ℕ} i.length_public_key 0,
          )
          (write_at [] (zeros size_of_uint32) (zeros i.length_public_key ++ zeros (length opub))
            (encode_uint32 i.length_public_key) 0 refl (length-encode_uint32 i.length_public_key))
      where
        split : key.pubkeylen ≡ size_of_uint32 + (i.length_public_key + length opub)
        split = omega (arith, h.publen, opub_len)

    none_left : i.length_public_key - length (zeros i.length_public_key) ≡ 0
    none_left = omega (arith, length-replicate {A = ℕ} i.length_public_key 0)

    place_oqs_public-fresh :
        place_oqs_public evp fresh (zeros key.pubkeylen) opub
        ≡ ok (
            framed
              (zeros i.length_public_key)
              (opub ++ zeros (i.length_public_key - length (zeros i.length_public_key))))
    unfolding place_oqs_public
    place_oqs_public-fresh =
        simp (is_two, h.info)
          (rw (write_header_fresh) (
            write_behind_first (zeros i.length_public_key) opub (zeros (length opub))
              (size_of_uint32 + i.length_public_key)
              (omega (arith, length-replicate {A = ℕ} i.length_public_key 0))
              (omega (arith, length-replicate {A = ℕ} (length opub) 0))
            ∙ ap (λ r. ok (framed (zeros i.length_public_key) (opub ++ r)))
                (drop-replicate (length opub) (length opub) 0
                  ∙ ap zeros (sub_self (length opub) ∙ sym none_left))))

    allocated-private :
        (alloc : Alloc)
        → alloc privkey_site ≡ true
        → allocated evp alloc key true ≡ ok (record key { privkey = some (zeros key.privkeylen) })
    unfolding allocate_keymaterial
    allocated-private alloc a = simp (new.no_privkey, allocate_keymaterial, a)

    allocated-public :
        (alloc : Alloc)
        → alloc pubkey_site ≡ true
        → allocated evp alloc (record key { privkey = some (zeros key.privkeylen) }) false
          ≡ ok fresh
    unfolding allocate_keymaterial
    allocated-public alloc a = simp (new.no_pubkey, allocate_keymaterial, a)

    load_private-encoded :
        (alloc : Alloc)
        → alloc privkey_site ≡ true
        → alloc pubkey_site ≡ true
        → load_private evp alloc key encoded
          ≡ ok (record key {
            pubkey = some (
                framed
                  (zeros i.length_public_key)
                  (opub ++ zeros (i.length_public_key - length (zeros i.length_public_key))));
            privkey = some (framed cpriv (opriv ++ zeros (i.length_private_key - length cpriv)));
          })
    unfolding load_private allocate_keymaterial
    load_private-encoded alloc a b = rw (actual_privkeylen-encoded) (
        rw (oqs_len-hybrid key key.keytype key.qs_ctx h.type h.fits) (
          rw (equal _ _ whole_length, allocated-private alloc a)
            (rw (allocated-public alloc b) (
              rw
                (
                  read_at [] (framed cpriv opriv) opub 0
                      (size_of_uint32 + (length cpriv + length opriv)) refl private_length,
                  write_private,
                  read_rest (framed cpriv opriv) opub
                      (size_of_uint32 + (length cpriv + length opriv)) _ private_length rest_length,
                )
                (rw (place_oqs_public-fresh))))))
      where
        private_length :
            size_of_uint32 + (length cpriv + length opriv) ≡ length (framed cpriv opriv)
        private_length = sym (length-framed cpriv opriv)

        whole_length :
            size_of_uint32 + (length cpriv + length opriv) + qs_publen key.qs_ctx ≡ length encoded
        whole_length =
            omega (arith, opub_len, private_length, length-append (framed cpriv opriv) opub)

        rest_length :
            length encoded - (size_of_uint32 + (length cpriv + length opriv)) ≡ length opub
        rest_length = omega (arith, private_length, length-append (framed cpriv opriv) opub)

    cpub-length : FromPrivate evp i q cpub cpriv → length cpub ≡ length (zeros i.length_public_key)
    cpub-length (raw_key _ _ _ len) = len ∙ sym (length-replicate {A = ℕ} i.length_public_key 0)
    cpub-length (der_key _ _ _ len) = len ∙ sym (length-replicate {A = ℕ} i.length_public_key 0)

    -- Reading the bytes of a private key (a header, the classical private key, however short, liboqs'
    -- private key and its public key) into a new key of that algorithm, when the allocations succeed and
    -- OpenSSL reads the classical key and encodes its public half, succeeds: all material is in place, each
    -- component where it is expected.
    pub fill_key-private :
        (alloc : Alloc)
        → alloc privkey_site ≡ true
        → alloc pubkey_site ≡ true
        → FromPrivate evp i q cpub cpriv
        → fill_key evp alloc key (framed cpriv opriv ++ opub) op_private
          ≡ ok (material key i q cpub cpriv opub opriv)
    unfolding fill_key load_by_op
    fill_key-private alloc a b made = rw (load_private-encoded alloc a b) (
        rebuild-private evp key i h q (zeros i.length_public_key) cpub cpriv opub opriv
          (cpub-length made) small_pub small_priv made)
