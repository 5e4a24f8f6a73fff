-- ===== src/Pipeline.antt =====
-- A private key through the encoder of a PrivateKeyInfo in DER, oqsprov/oqs_encode_key2any.c, and the
-- decoder of that structure, oqsprov/oqs_decode_der2key.c.
pub mod Public
use Prim.Native.String.{String}
use oqs_provider.Base.{
  ℕ, ◌≤◌, ◌<◌, ◌^◌, ◌==◌, ◌≡◌, refl, sym, ◌∙◌, ap, Bool, true, false, Option, none, some, List, [],
  ◌∷◌, ◌++◌, arith, length, equal, lt→ltb, if◌then◌else◌,
}
use oqs_provider.Run.{ok, ◌>>=◌}
use oqs_provider.Memory.{Bytes}
use oqs_provider.Extern.{Evp, Oqs, Alloc, Asn1, der, pubkey_site, privkey_site}
use oqs_provider.Key.{OqsxKey, EvpInfo}
use oqs_provider.Key.Shape.{IsHybrid, IsNew, qs_publen, qs_privlen}
use oqs_provider.Key.Material.{material}
use oqs_provider.Key.Layout.{framed}
use oqs_provider.Key.Decode.{fill_key, op_private, key_op, key_from_pkcs8, key_new_from_nid}
use oqs_provider.Key.Decode.Rebuild.{FromPrivate}
use oqs_provider.KeyMgmt.{Selection}
use oqs_provider.NidTable.{NidName}
use oqs_provider.Bio.{Upcalls, prov_bio_up_ref, bio_new_from_core_bio}
use oqs_provider.Encoder.Blob.{pki_priv_to_der}
use oqs_provider.Encoder.RoundTrip.{pki_priv_to_der-material, fill_key-pki_priv_to_der}
use oqs_provider.Encoder.Envelope.{
  Key2anyCtx, private_der, prepare_params, key_to_p8info, key_to_pki_priv_bio,
}
use oqs_provider.Encoder.Key2any.{
  private_key_info, writer, write_out, encode_key, key2any_encode, encode,
}
use oqs_provider.Decoder.{
  KeytypeDesc, decode, decode_from, decode_private, decode_public, decode_params, private_attempt,
  finish, hand_over,
}
use oqs_provider.Decoder.Keytype.{private_key_info_desc, d2i_pkcs8_key, newctx_evp_type}

-- OpenSSL knows the name and its object, and reads what it writes: an octet string, and a PrivateKeyInfo of
-- that algorithm without parameters.
pub record Carries (asn : Asn1) (name : String) (nid : ℕ) (blob oct bytes : Bytes) : Type 0 where
  pub known : asn.sn2nid name ≡ nid
  pub defined : 0 < nid
  pub object_size : ℕ
  pub object : asn.object_length nid ≡ some object_size
  pub has_object : 0 < object_size
  pub octets : asn.i2d_octet_string blob ≡ some oct
  pub octets_back : asn.d2i_octet_string oct ≡ some blob
  pub nonempty : 0 < length oct
  pub enclosed : asn.p8info nid oct ≡ some (record { nid = nid; params_absent = true; bytes = oct })
  pub written :
      asn.write_p8info der (record { nid = nid; params_absent = true; bytes = oct }) ≡ some bytes
  pub read_back :
      asn.d2i_p8info bytes ≡ some (record { nid = nid; params_absent = true; bytes = oct })

pub nonzero : (n : ℕ) → 0 < n → (n == 0) ≡ false
nonzero n h = ground arith

module _ (asn : Asn1) (evp : Evp) (name : String) (nid : ℕ) (blob oct bytes : Bytes)
    (carries : Carries asn name nid blob oct bytes) where
  open asn use {Cipher, nid2sn}
  open evp use {Pkey}

  module _ (key : OqsxKey Pkey) (named : key.tls_name ≡ name)
      (blob_made : pki_priv_to_der (some key) ≡ ok blob) where
    private_der-carried : private_der asn (some key) ≡ ok oct
    unfolding private_der
    private_der-carried = rw (blob_made) (rw (carries.octets))

    prepared : prepare_params asn key nid ≡ ok tt
    unfolding prepare_params
    prepared = rw (named) (
        rw (carries.known) (
          rw (equal nid nid refl, nonzero nid carries.defined)
            (rw (carries.object) (rw (nonzero _ carries.has_object)))))

    key_to_p8info-carried :
        key_to_p8info asn (private_der asn (some key)) nid
        ≡ ok (record { nid = nid; params_absent = true; bytes = oct })
    unfolding key_to_p8info
    key_to_p8info-carried =
        rw (private_der-carried) (rw (lt→ltb _ _ carries.nonempty) (rw (carries.enclosed)))

    writer-carried :
        (alloc_ok : Bool) (ctx : Key2anyCtx Cipher)
        → ctx.cipher_intent ≡ false
        → writer asn alloc_ok private_key_info der key nid ctx ≡ ok bytes
    unfolding writer key_to_pki_priv_bio
    writer-carried alloc_ok ctx plain =
        rw (plain, prepared, key_to_p8info-carried) (rw (carries.written))

    encode-carried :
        {W H : Type 0} (u : Upcalls W H) (alloc_ok : Bool) (ctx : Key2anyCtx Cipher) (cout : H)
        (selection : Selection) (pwcb : Option (Option Bytes)) (w : W)
        → ctx.cipher_intent ≡ false
        → selection.private_key ≡ true
        → (prov_bio_up_ref u (some cout) w).0 ≡ true
        → (encode asn u alloc_ok true true name private_key_info der ctx cout
            (some key)
            false
            selection
            pwcb
            w).result
          ≡ ok bytes
    unfolding encode key2any_encode encode_key write_out bio_new_from_core_bio
    encode-carried u alloc_ok ctx cout selection pwcb w plain selected referenced = rw (selected) (
        rw (carries.known) (
          rw (nonzero nid carries.defined)
            (rw (referenced) (writer-carried alloc_ok (record ctx { pwcb = pwcb }) plain))))

  module _ (oqs : Oqs) (alloc : Alloc) (rows : List NidName) (new full : OqsxKey Pkey)
      (made : key_new_from_nid evp oqs alloc rows nid2sn none nid ≡ ok new)
      (filled : fill_key evp alloc new blob op_private ≡ ok full) where
    key_from_pkcs8-carried :
        key_from_pkcs8 evp oqs alloc rows nid2sn (some ((true, nid), some blob)) none ≡ ok full
    unfolding key_from_pkcs8 key_op
    key_from_pkcs8-carried = rw (nonzero nid carries.defined) (rw (made) filled)

    abbrev desc : KeytypeDesc (OqsxKey Pkey)
    desc = private_key_info_desc asn evp oqs alloc rows (newctx_evp_type asn 0 name)

    attempt-carried : private_attempt desc bytes ≡ ok (some full, false)
    unfolding private_attempt d2i_pkcs8_key newctx_evp_type
    attempt-carried = rw (carries.known) (
        rw (carries.read_back)
          (rw (equal nid nid refl, carries.octets_back) (rw (key_from_pkcs8-carried))))

    decode-carried :
        (data_cb : OqsxKey Pkey → Bool × Bool) (selection : Selection)
        → selection.private_key ≡ true
        → decode desc data_cb (some bytes) selection ≡ ok (hand_over desc data_cb [] (some full))
    unfolding decode decode_from decode_private decode_public decode_params finish
    decode-carried data_cb selection selected = simp (selected) (rw (attempt-carried))

-- A hybrid private key that is encoded as PrivateKeyInfo in DER, with no cipher intended, and whose bytes are
-- decoded by the decoder of its algorithm, is handed to the callback with all its material: when the
-- allocations succeed, the core gives a reference to its BIO, the number of the algorithm makes a new key of
-- the same kind, and OpenSSL reads the classical key and encodes its public half in the full length.
pub decode-encode :
    {W H : Type 0} (asn : Asn1) (evp : Evp) (oqs : Oqs) (alloc : Alloc) (rows : List NidName)
    (key new : OqsxKey evp.Pkey) (i : EvpInfo)
    → IsHybrid key i
    → IsHybrid new i
    → IsNew new
    → new.qs_ctx ≡ key.qs_ctx
    → (p q : evp.Pkey) (cpub cpriv opub opriv oct bytes : Bytes) (nid : ℕ) → length cpub < 2 ^ 31
    → length cpriv < 2 ^ 31
    → length opub ≡ qs_publen key.qs_ctx
    → length opriv ≡ qs_privlen key.qs_ctx
    → length cpub ≤ i.length_public_key
    → length cpriv ≤ i.length_private_key
    → FromPrivate evp i q cpub cpriv
    → alloc privkey_site ≡ true
    → alloc pubkey_site ≡ true
    → Carries asn key.tls_name nid (framed cpriv opriv ++ opub) oct bytes
    → key_new_from_nid evp oqs alloc rows asn.nid2sn none nid ≡ ok new
    → (u : Upcalls W H) (alloc_ok : Bool) (ctx : Key2anyCtx asn.Cipher) (cout : H)
      (selection : Selection) (pwcb : Option (Option Bytes)) (w : W)
    → ctx.cipher_intent ≡ false
    → selection.private_key ≡ true
    → (prov_bio_up_ref u (some cout) w).0 ≡ true
    → (data_cb : OqsxKey evp.Pkey → Bool × Bool)
    → ((encode asn u alloc_ok true true key.tls_name private_key_info der ctx cout
          (some (material key i p cpub cpriv opub opriv))
          false
          selection
          pwcb
          w).result
        >>= λ written.
            decode
              (private_key_info_desc asn evp oqs alloc rows (newctx_evp_type asn 0 key.tls_name))
              data_cb
              (some written)
              selection)
      ≡ ok (record {
        result = (data_cb (material new i q cpub cpriv opub opriv)).0;
        offered = some (material new i q cpub cpriv opub opriv);
        freed_keys =
            if (data_cb (material new i q cpub cpriv opub opriv)).1
            then []
            else material new i q cpub cpriv opub opriv ∷ [];
      })
decode-encode asn evp oqs alloc rows key new i h h' is_new same p q cpub cpriv opub opriv oct bytes
      nid small_pub small_priv opub_len opriv_len fits_pub fits_priv made a b carries new_made u
      alloc_ok ctx cout selection pwcb w plain selected referenced data_cb =
    rw
      (encode-carried asn evp key.tls_name nid _ oct bytes carries
        (material key i p cpub cpriv opub opriv) refl blob u alloc_ok ctx cout selection pwcb w
        plain selected referenced)
      (decode-carried asn evp key.tls_name nid _ oct bytes carries oqs alloc rows new
        (material new i q cpub cpriv opub opriv) new_made filled data_cb selection selected)
  where
    blob :
        pki_priv_to_der (some (material key i p cpub cpriv opub opriv))
        ≡ ok (framed cpriv opriv ++ opub)
    blob =
        pki_priv_to_der-material key i h p cpub cpriv opub opriv small_pub small_priv opub_len
          opriv_len fits_pub fits_priv

    filled :
        fill_key evp alloc new (framed cpriv opriv ++ opub) op_private
        ≡ ok (material new i q cpub cpriv opub opriv)
    filled =
        ap (λ m. m >>= λ bs. fill_key evp alloc new bs op_private) (sym blob)
        ∙ fill_key-pki_priv_to_der evp key new i h h' is_new same p q cpub cpriv opub opriv
            small_pub small_priv opub_len opriv_len fits_pub fits_priv made alloc a b
