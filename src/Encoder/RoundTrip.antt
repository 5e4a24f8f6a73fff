-- ===== src/Encoder/RoundTrip.antt =====
-- Encoding a hybrid key and decoding the bytes into a new key.
use oqs_provider.Base.{
  ◌+◌, ◌-◌, ◌≤◌, ◌<◌, ◌^◌, ◌≡◌, refl, sym, true, some, arith, length, ◌++◌, ap, ◌∙◌, ltb, leb,
}
use oqs_provider.Run.{ok, ◌>>=◌}
use oqs_provider.Memory.{Bytes, size_of_uint32, int_to_size}
use oqs_provider.Memory.Laws.{le→leb, int_to_size_small}
use oqs_provider.Extern.{Evp, Alloc, pubkey_site, privkey_site}
use oqs_provider.Key.{EvpInfo, OqsxKey}
use oqs_provider.Key.Shape.{IsHybrid, IsNew, qs_privlen, qs_publen}
use oqs_provider.Key.Layout.{zeros, framed, decode-framed, read_front, read_second}
use oqs_provider.Key.Lengths.{oqs_len-hybrid}
use oqs_provider.Key.Material.{material}
use oqs_provider.Key.Decode.{fill_key, op_private}
use oqs_provider.Key.Decode.Rebuild.{FromPrivate}
use oqs_provider.Key.Decode.RoundTrip.{fill_key-private}
use oqs_provider.Encoder.Blob.{pki_priv_to_der, encoded_privkeylen}

module _ {Pkey : Type 0} where
  module _ (key : OqsxKey Pkey) (i : EvpInfo) (h : IsHybrid key i) (p : Pkey)
      (cpub cpriv opub opriv : Bytes) (small_pub : length cpub < 2 ^ 31)
      (small_priv : length cpriv < 2 ^ 31) (opub_len : length opub ≡ qs_publen key.qs_ctx)
      (opriv_len : length opriv ≡ qs_privlen key.qs_ctx)
      (fits_pub : length cpub ≤ i.length_public_key)
      (fits_priv : length cpriv ≤ i.length_private_key) where
    more_than_one : ltb 1 key.numkeys ≡ true
    more_than_one = ground (arith, h.two)

    fits_header : leb (int_to_size (length cpriv)) i.length_private_key ≡ true
    fits_header = rw (int_to_size_small (length cpriv) small_priv) (le→leb _ _ fits_priv)

    encoded_privkeylen-material :
        encoded_privkeylen
          (material key i p cpub cpriv opub opriv)
          (framed cpriv (opriv ++ zeros (i.length_private_key - length cpriv)))
        ≡ ok (size_of_uint32 + (length cpriv + length opriv))
    unfolding encoded_privkeylen
    encoded_privkeylen-material =
        rw (more_than_one, decode-framed cpriv small_priv)
          (rw (h.info) (
            rw (fits_header) (
              ap ok (
                omega (arith, h.privlen, opriv_len, int_to_size_small (length cpriv) small_priv)))))

    -- What is encoded of a hybrid key with all its material: the header with the length of the classical private
    -- key, that key and liboqs' private key, without the room that a short classical key leaves, and
    -- liboqs' public key.
    pub pki_priv_to_der-material :
        pki_priv_to_der (some (material key i p cpub cpriv opub opriv))
        ≡ ok (framed cpriv opriv ++ opub)
    unfolding pki_priv_to_der
    pki_priv_to_der-material =
        rw
          (
            encoded_privkeylen-material,
            read_front cpriv opriv (zeros (i.length_private_key - length cpriv)) _ refl,
          )
          (rw (
            oqs_len-hybrid (material key i p cpub cpriv opub opriv) key.keytype key.qs_ctx h.type
                h.fits,
            h.two,
            read_second cpub opub (zeros (i.length_public_key - length cpub)) _ (sym opub_len),
          ))

-- Encoding the private key of a hybrid key with all its material and reading the bytes into a new key of the
-- same algorithm, when the allocations succeed and OpenSSL reads the classical key and encodes its public
-- half in the full length, succeeds and gives all the material back.
pub fill_key-pki_priv_to_der :
    (evp : Evp) (key new : OqsxKey evp.Pkey) (i : EvpInfo)
    → IsHybrid key i
    → IsHybrid new i
    → IsNew new
    → new.qs_ctx ≡ key.qs_ctx
    → (p q : evp.Pkey) (cpub cpriv opub opriv : Bytes) → length cpub < 2 ^ 31
    → length cpriv < 2 ^ 31
    → length opub ≡ qs_publen key.qs_ctx
    → length opriv ≡ qs_privlen key.qs_ctx
    → length cpub ≤ i.length_public_key
    → length cpriv ≤ i.length_private_key
    → FromPrivate evp i q cpub cpriv
    → (alloc : Alloc) → alloc privkey_site ≡ true
    → alloc pubkey_site ≡ true
    → (pki_priv_to_der (some (material key i p cpub cpriv opub opriv)) >>= λ bytes.
        fill_key evp alloc new bytes op_private)
      ≡ ok (material new i q cpub cpriv opub opriv)
fill_key-pki_priv_to_der evp key new i h h' is_new same p q cpub cpriv opub opriv small_pub
      small_priv opub_len opriv_len fits_pub fits_priv made alloc a b =
    rw
      (pki_priv_to_der-material key i h p cpub cpriv opub opriv small_pub small_priv opub_len
        opriv_len fits_pub fits_priv)
      (fill_key-private evp new i h' is_new q cpub cpriv opub opriv small_pub small_priv
        (opub_len ∙ ap qs_publen (sym same)) (opriv_len ∙ ap qs_privlen (sym same)) fits_priv alloc
        a b made)
