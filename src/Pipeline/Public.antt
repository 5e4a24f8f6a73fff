-- ===== src/Pipeline/Public.antt =====
-- A public key through the encoder of a SubjectPublicKeyInfo in DER, oqsprov/oqs_encode_key2any.c, and the
-- decoder of that structure, oqsprov/oqs_decode_der2key.c.
use Prim.Native.String.{String}
use oqs_provider.Base.{
  ℕ, ◌≤◌, ◌<◌, ◌^◌, ◌≡◌, refl, Bool, true, false, Option, none, some, List, [], ◌∷◌, length, equal,
  lt→ltb, if◌then◌else◌,
}
use oqs_provider.Run.{ok, ◌>>=◌}
use oqs_provider.Memory.{Bytes}
use oqs_provider.Memory.Laws.{read_rest}
use oqs_provider.Extern.{Evp, Oqs, Alloc, Asn1, der, pubkey_site}
use oqs_provider.Key.{OqsxKey, EvpInfo}
use oqs_provider.Key.Shape.{IsHybrid, IsNew, qs_publen}
use oqs_provider.Key.Material.{material}
use oqs_provider.Key.Decode.{fill_key, op_public, key_op, key_from_x509pubkey, key_new_from_nid}
use oqs_provider.Key.Decode.Rebuild.{FromPublic, public_half}
use oqs_provider.Key.Decode.Public.{public_buffer, length-public_buffer, fill_key-public}
use oqs_provider.KeyMgmt.{Selection}
use oqs_provider.NidTable.{NidName}
use oqs_provider.Bio.{Upcalls, prov_bio_up_ref, bio_new_from_core_bio}
use oqs_provider.Encoder.Blob.{spki_pub_to_der}
use oqs_provider.Encoder.Envelope.{Key2anyCtx, prepare_params, key_to_pubkey, key_to_spki_pub_bio}
use oqs_provider.Encoder.Key2any.{
  subject_public_key_info, writer, write_out, encode_key, key2any_encode, encode,
}
use oqs_provider.Decoder.{
  KeytypeDesc, decode, decode_from, decode_private, decode_public, decode_params, public_attempt,
  finish, hand_over,
}
use oqs_provider.Decoder.Keytype.{public_key_info_desc, d2i_pubkey_key}
use oqs_provider.Pipeline.{nonzero}

-- OpenSSL knows the name and its object, and reads what it writes: a SubjectPublicKeyInfo of that algorithm
-- without parameters.
pub record CarriesPublic (asn : Asn1) (name : String) (nid : ℕ) (blob bytes : Bytes) : Type 0 where
  pub known : asn.sn2nid name ≡ nid
  pub defined : 0 < nid
  pub object_size : ℕ
  pub object : asn.object_length nid ≡ some object_size
  pub has_object : 0 < object_size
  pub nonempty : 0 < length blob
  pub enclosed :
      asn.x509_pubkey nid blob ≡ some (record { nid = nid; params_absent = true; bytes = blob })
  pub written :
      asn.write_x509_pubkey der (record { nid = nid; params_absent = true; bytes = blob })
      ≡ some bytes
  pub read_back :
      asn.d2i_x509_pubkey bytes ≡ some (record { nid = nid; params_absent = true; bytes = blob })

module _ (asn : Asn1) (evp : Evp) (name : String) (nid : ℕ) (blob bytes : Bytes)
    (carries : CarriesPublic asn name nid blob bytes) where
  open asn use {Cipher, nid2sn}
  open evp use {Pkey}

  module _ (key : OqsxKey Pkey) (named : key.tls_name ≡ name)
      (blob_made : spki_pub_to_der true (some key) ≡ ok blob) where
    prepared_public : prepare_params asn key nid ≡ ok tt
    unfolding prepare_params
    prepared_public = rw (named) (
        rw (carries.known) (
          rw (equal nid nid refl, nonzero nid carries.defined)
            (rw (carries.object) (rw (nonzero _ carries.has_object)))))

    key_to_pubkey-carried :
        key_to_pubkey asn (spki_pub_to_der true (some key)) nid
        ≡ ok (record { nid = nid; params_absent = true; bytes = blob })
    unfolding key_to_pubkey
    key_to_pubkey-carried =
        rw (blob_made) (rw (lt→ltb _ _ carries.nonempty) (rw (carries.enclosed)))

    writer-carried_public :
        (ctx : Key2anyCtx Cipher)
        → writer asn true subject_public_key_info der key nid ctx ≡ ok bytes
    unfolding writer key_to_spki_pub_bio
    writer-carried_public ctx = rw (prepared_public, key_to_pubkey-carried) (rw (carries.written))

    encode-carried_public :
        {W H : Type 0} (u : Upcalls W H) (ctx : Key2anyCtx Cipher) (cout : H)
        (selection : Selection) (pwcb : Option (Option Bytes)) (w : W)
        → selection.public_key ≡ true
        → (prov_bio_up_ref u (some cout) w).0 ≡ true
        → (encode asn u true true true name subject_public_key_info der ctx cout
            (some key)
            false
            selection
            pwcb
            w).result
          ≡ ok bytes
    unfolding encode key2any_encode encode_key write_out bio_new_from_core_bio
    encode-carried_public u ctx cout selection pwcb w selected referenced = rw (selected) (
        rw (carries.known) (
          rw (nonzero nid carries.defined)
            (rw (referenced) (writer-carried_public (record ctx { pwcb = pwcb })))))

  module _ (oqs : Oqs) (alloc : Alloc) (rows : List NidName) (new full : OqsxKey Pkey)
      (made : key_new_from_nid evp oqs alloc rows nid2sn none nid ≡ ok new)
      (filled : fill_key evp alloc new blob op_public ≡ ok full) where
    key_from_x509pubkey-carried :
        key_from_x509pubkey evp oqs alloc rows nid2sn (some ((true, nid), blob)) none ≡ ok full
    unfolding key_from_x509pubkey key_op
    key_from_x509pubkey-carried = rw (nonzero nid carries.defined) (rw (made) filled)

    abbrev public_desc : KeytypeDesc (OqsxKey Pkey)
    public_desc = public_key_info_desc asn evp oqs alloc rows

    attempt-carried_public : public_attempt public_desc bytes ≡ ok (some full)
    unfolding public_attempt d2i_pubkey_key
    attempt-carried_public = rw (carries.read_back) (rw (key_from_x509pubkey-carried))

    decode-carried_public :
        (data_cb : OqsxKey Pkey → Bool × Bool) (selection : Selection)
        → selection.public_key ≡ true
        → selection.private_key ≡ false
        → decode public_desc data_cb (some bytes) selection
          ≡ ok (hand_over public_desc data_cb [] (some full))
    unfolding decode decode_from decode_private decode_public decode_params finish
    decode-carried_public data_cb selection selected public_only =
        simp (selected, public_only) (rw (attempt-carried_public))

-- The public half of a hybrid key that is encoded as SubjectPublicKeyInfo in DER, from a key that has all its
-- material, whatever cipher is intended, with the public key selected and the private key not, and whose bytes are decoded by the decoder of that structure, is
-- handed to the callback with all of the public material and no private one: when the allocations
-- succeed, the core gives a reference to its BIO, the number of the algorithm makes a new key of the
-- same kind, and OpenSSL reads the classical public key.
pub decode-encode_public :
    {W H : Type 0} (asn : Asn1) (evp : Evp) (oqs : Oqs) (alloc : Alloc) (rows : List NidName)
    (key new : OqsxKey evp.Pkey) (i : EvpInfo)
    → IsHybrid key i
    → (h' : IsHybrid new i) → IsNew new
    → new.qs_ctx ≡ key.qs_ctx
    → (p q : evp.Pkey) (cpub cpriv opub opriv bytes : Bytes) (nid : ℕ)
    → (small : length cpub < 2 ^ 31) → length opub ≡ qs_publen key.qs_ctx
    → length cpub ≤ i.length_public_key
    → FromPublic evp i q cpub
    → alloc pubkey_site ≡ true
    → CarriesPublic asn key.tls_name nid (public_buffer i cpub opub) bytes
    → key_new_from_nid evp oqs alloc rows asn.nid2sn none nid ≡ ok new
    → (u : Upcalls W H) (ctx : Key2anyCtx asn.Cipher) (cout : H) (selection : Selection)
      (pwcb : Option (Option Bytes)) (w : W)
    → selection.public_key ≡ true
    → selection.private_key ≡ false
    → (prov_bio_up_ref u (some cout) w).0 ≡ true
    → (data_cb : OqsxKey evp.Pkey → Bool × Bool)
    → ((encode asn u true true true key.tls_name subject_public_key_info der ctx cout
          (some (material key i p cpub cpriv opub opriv))
          false
          selection
          pwcb
          w).result
        >>= λ written.
            decode (public_key_info_desc asn evp oqs alloc rows) data_cb (some written) selection)
      ≡ ok (record {
        result = (data_cb (public_half evp new i h' q cpub opub small)).0;
        offered = some (public_half evp new i h' q cpub opub small);
        freed_keys =
            if (data_cb (public_half evp new i h' q cpub opub small)).1
            then []
            else public_half evp new i h' q cpub opub small ∷ [];
      })
unfolding spki_pub_to_der
decode-encode_public asn evp oqs alloc rows key new i h h' is_new same p q cpub cpriv opub opriv
      bytes nid small opub_len fits made b carries new_made u ctx cout selection pwcb w selected
      public_only referenced data_cb =
    rw
      (encode-carried_public asn evp key.tls_name nid _ bytes carries
        (material key i p cpub cpriv opub opriv) refl blob u ctx cout selection pwcb w selected
        referenced)
      (decode-carried_public asn evp key.tls_name nid _ bytes carries oqs alloc rows new
        (public_half evp new i h' q cpub opub small) new_made filled data_cb selection selected
        public_only)
  where
    blob :
        spki_pub_to_der true (some (material key i p cpub cpriv opub opriv))
        ≡ ok (public_buffer i cpub opub)
    blob =
        read_rest [] (public_buffer i cpub opub) 0 key.pubkeylen refl
          (length-public_buffer evp key i h cpub opub opub_len fits)

    filled :
        fill_key evp alloc new (public_buffer i cpub opub) op_public
        ≡ ok (public_half evp new i h' q cpub opub small)
    filled =
        fill_key-public evp new i h' is_new q cpub opub small (rw (same) opub_len) fits made alloc b
