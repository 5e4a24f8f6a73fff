-- ===== src/Encoder/Key2any/Sealed.antt =====
-- A private key that is to be encrypted is never written in the clear.
use Prim.Native.String.{String}
use oqs_provider.Base.{
  ℕ, ◌==◌, ◌≡◌, refl, ap, subst, length, ltb, Bool, true, false, not, ◌&&◌, Option, none, some,
  Bool-cases, inl, inr,
}
use oqs_provider.Run.{
  Run, ok, err, ub, ok_injective, malloc_failure, Post, Post-bind, Post-chain, or_err, or_err_ok,
  ensure, ◌>>=◌, ◌>>◌, silent, unable_to_get_passphrase,
}
use oqs_provider.Memory.{Bytes, is_null}
use oqs_provider.Extern.{Asn1, Envelope, Form}
use oqs_provider.Key.{OqsxKey}
use oqs_provider.KeyMgmt.{Selection}
use oqs_provider.Bio.{Upcalls, OutBio}
use oqs_provider.Encoder.Blob.{pki_priv_to_der}
use oqs_provider.Encoder.Envelope.{
  Key2anyCtx, as_malloc_failure, private_der, key_to_p8info, p8info_to_encp8, key_to_encp8,
  prepare_params, key_to_epki_priv_bio, key_to_pki_priv_bio,
}
use oqs_provider.Encoder.Key2any.{
  StringParam, utf8_ptr, Kind, encrypted_private_key_info, private_key_info,
  subject_public_key_info, is_selected, Encoded, set_save, set_cipher_param, key2any_set_ctx_params,
  writer, write_out, encode_key, key2any_encode, encode,
}

abbrev pub IsPrivate : Kind → Type 0
IsPrivate encrypted_private_key_info = Unit
IsPrivate private_key_info = Unit
IsPrivate subject_public_key_info = ⊥

-- Properties that go with a cipher: absent, or a string.
abbrev pub with_props : Option (Option String) → Option StringParam
with_props none = none
with_props (some props) = some (utf8_ptr props)

-- The properties that a cipher is fetched with.
abbrev pub given : Option (Option String) → Option String
given none = none
given (some props) = props

module _ (asn : Asn1) where
  open asn use {Cipher, i2d_octet_string, p8info, pkcs8_encrypt, write_p8}

  -- The bytes are what the fetched cipher makes, under the passphrase, of the PrivateKeyInfo that has the
  -- number and the private part of the key, in an octet string.
  pub record IsSealed {Pkey : Type 0} (fetched : Option Cipher) (pwcb : Option (Option Bytes))
      (key : Option (OqsxKey Pkey)) (nid : ℕ) (form : Form) (bytes : Bytes) : Type 0 where
    pub cipher : Cipher
    pub kstr : Bytes
    pub blob : Bytes
    pub der : Bytes
    pub p8 : Envelope
    pub sealed : Bytes
    pub has_cipher : fetched ≡ some cipher
    pub passphrase : pwcb ≡ some (some kstr)
    pub private_part : pki_priv_to_der key ≡ ok blob
    pub octets : i2d_octet_string blob ≡ some der
    pub enclosed : p8info nid der ≡ some p8
    pub encrypted : pkcs8_encrypt cipher kstr p8 ≡ some sealed
    pub written : write_p8 form sealed ≡ some bytes

  key_to_p8info_ok :
      (m : Run Bytes) (nid : ℕ) (p8 : Envelope)
      → key_to_p8info asn m nid ≡ ok p8
      → (der : Bytes) × (m ≡ ok der) × (p8info nid der ≡ some p8)
  unfolding key_to_p8info
  key_to_p8info_ok (ok der) nid p8 h = (der, refl, inside (ltb 0 (length der)) (p8info nid der) h)
    where
      inside :
          (b : Bool) (o : Option Envelope)
          → as_malloc_failure (do ensure b malloc_failure; or_err malloc_failure o) ≡ ok p8
          → o ≡ some p8
      inside true none h = absurd cc
      inside true (some e) h = ap some (ok_injective h)
      inside false o h = absurd cc
  key_to_p8info_ok (err e) nid p8 h = absurd cc
  key_to_p8info_ok ub nid p8 h = absurd cc

  private_der_ok :
      {Pkey : Type 0} (key : OqsxKey Pkey) (der : Bytes)
      → private_der asn (some key) ≡ ok der
      → (blob : Bytes) × (pki_priv_to_der (some key) ≡ ok blob) × (i2d_octet_string blob ≡ some der)
  unfolding private_der
  private_der_ok key der h = split (pki_priv_to_der (some key)) h
    where
      split :
          (m : Run Bytes)
          → (do blob ← m; or_err malloc_failure (i2d_octet_string blob)) ≡ ok der
          → (blob : Bytes) × (m ≡ ok blob) × (i2d_octet_string blob ≡ some der)
      split (ok blob) h = (blob, refl, or_err_ok malloc_failure (i2d_octet_string blob) h)
      split (err e) h = absurd cc
      split ub h = absurd cc

  module _ {Pkey : Type 0} (ctx : Key2anyCtx Cipher) (form : Form) (key : OqsxKey Pkey)
      (nid : ℕ) where
    abbrev Seals : Bytes → Type 0
    Seals bytes = IsSealed ctx.cipher ctx.pwcb (some key) nid form bytes

    -- Up to the writing of what was encrypted.
    abbrev IsEncrypted : Bytes → Type 0
    IsEncrypted sealed = (bytes : Bytes) → write_p8 form sealed ≡ some bytes → Seals bytes

    p8info_to_encp8-IsEncrypted :
        (blob der : Bytes) (p8 : Envelope)
        → pki_priv_to_der (some key) ≡ ok blob
        → i2d_octet_string blob ≡ some der
        → p8info nid der ≡ some p8
        → Post IsEncrypted (p8info_to_encp8 asn p8 ctx)
    unfolding p8info_to_encp8
    p8info_to_encp8-IsEncrypted blob der p8 part octs encl =
        Post-bind _ (or_err silent ctx.cipher) _ λ cipher c.
          Post-bind _ (or_err silent ctx.pwcb) _ λ callback cb.
            Post-bind _ (or_err unable_to_get_passphrase callback) _ λ kstr k.
              sealing cipher callback kstr (or_err_ok _ _ c) (or_err_ok _ _ cb) (or_err_ok _ _ k)
                (pkcs8_encrypt cipher kstr p8) refl
      where
        sealing :
            (cipher : Cipher) (callback : Option Bytes) (kstr : Bytes)
            → ctx.cipher ≡ some cipher
            → ctx.pwcb ≡ some callback
            → callback ≡ some kstr
            → (o : Option Bytes) → pkcs8_encrypt cipher kstr p8 ≡ o
            → Post IsEncrypted (or_err silent o)
        sealing cipher callback kstr c cb k none e = tt
        sealing cipher callback kstr c cb k (some sealed) e = λ bytes w. record {
          cipher = cipher;
          kstr = kstr;
          blob = blob;
          der = der;
          p8 = p8;
          sealed = sealed;
          has_cipher = c;
          passphrase = rw (← k) cb;
          private_part = part;
          octets = octs;
          enclosed = encl;
          encrypted = e;
          written = w;
        }

    key_to_encp8-IsEncrypted :
        Post IsEncrypted (key_to_encp8 asn (private_der asn (some key)) nid ctx)
    unfolding key_to_encp8
    key_to_encp8-IsEncrypted =
        Post-bind _ (key_to_p8info asn (private_der asn (some key)) nid) _ λ p8 h.
          let info = key_to_p8info_ok (private_der asn (some key)) nid p8 h in
          let part = private_der_ok key info.0 info.1 in
          p8info_to_encp8-IsEncrypted part.0 info.0 p8 part.1 part.2 info.2

    write-IsSealed :
        (sealed : Bytes) → IsEncrypted sealed → Post Seals (or_err silent (write_p8 form sealed))
    write-IsSealed sealed done = go (write_p8 form sealed) refl
      where
        go : (o : Option Bytes) → write_p8 form sealed ≡ o → Post Seals (or_err silent o)
        go none w = tt
        go (some bytes) w = done bytes w

    after_intent-IsSealed : Post Seals (
        prepare_params asn key nid
        >> (key_to_encp8 asn (private_der asn (some key)) nid ctx >>= λ p8.
            or_err silent (write_p8 form p8)))
    after_intent-IsSealed = Post-bind _ (prepare_params asn key nid) _ λ u _.
        Post-chain _ _ (key_to_encp8 asn (private_der asn (some key)) nid ctx) _
          key_to_encp8-IsEncrypted write-IsSealed

    key_to_epki-IsSealed :
        Post Seals (key_to_epki_priv_bio asn form key nid (private_der asn (some key)) ctx)
    unfolding key_to_epki_priv_bio
    key_to_epki-IsSealed =
        Post-bind _ (ensure ctx.cipher_intent silent) _ λ u _. after_intent-IsSealed

    key_to_pki-IsSealed :
        ctx.cipher_intent ≡ true
        → Post Seals (key_to_pki_priv_bio asn form key nid (private_der asn (some key)) ctx)
    unfolding key_to_pki_priv_bio
    key_to_pki-IsSealed intent = simp (intent) after_intent-IsSealed

  writer-IsSealed :
      {Pkey : Type 0} (alloc_ok : Bool) (kind : Kind) (form : Form) (key : OqsxKey Pkey) (type : ℕ)
      (ctx : Key2anyCtx Cipher)
      → IsPrivate kind
      → ctx.cipher_intent ≡ true
      → Post (Seals ctx form key type) (writer asn alloc_ok kind form key type ctx)
  unfolding writer
  writer-IsSealed alloc_ok encrypted_private_key_info form key type ctx is_private intent =
      key_to_epki-IsSealed ctx form key type
  writer-IsSealed alloc_ok private_key_info form key type ctx is_private intent =
      key_to_pki-IsSealed ctx form key type intent
  writer-IsSealed alloc_ok subject_public_key_info form key type ctx is_private intent =
      elim is_private [ ]

  abbrev Sealed :
      {Pkey W : Type 0}
      → Key2anyCtx Cipher
      → Form
      → Option (OqsxKey Pkey)
      → ℕ
      → Encoded W Cipher
      → Type 0
  Sealed ctx form key nid r = Post (IsSealed ctx.cipher ctx.pwcb key nid form) r.result

  module _ {Pkey W H : Type 0} (u : Upcalls W H) (alloc_ok bio_method bio_made : Bool) (kind : Kind)
      (form : Form) (pwcb : Option (Option Bytes)) (is_private : IsPrivate kind)
      (ctx : Key2anyCtx Cipher) (intent : ctx.cipher_intent ≡ true) where
    write_out-Sealed :
        (key : OqsxKey Pkey) (type : ℕ) (out : Option (OutBio H)) (w : W)
        → Sealed
            (record ctx { pwcb = pwcb })
            form
            (some key)
            type
            (write_out asn u alloc_ok bio_method bio_made ctx key type kind form pwcb out w)
    unfolding write_out
    write_out-Sealed key type none w = tt
    write_out-Sealed key type (some out) w =
        writer-IsSealed alloc_ok kind form key type (record ctx { pwcb = pwcb }) is_private intent

    encode_key-Sealed :
        (key : OqsxKey Pkey) (type : ℕ) (cout : H) (w : W)
        → Sealed
            (record ctx { pwcb = pwcb })
            form
            (some key)
            type
            (encode_key asn u alloc_ok bio_method bio_made ctx key type kind form pwcb cout w)
    unfolding encode_key
    encode_key-Sealed key type cout w = elim (Bool-cases (type == 0)) [
      | inl unknown ↦ rw (unknown) tt
      | inr known ↦ rw (known) (write_out-Sealed key type _ _)
    ]

    encode-Sealed :
        (key : Option (OqsxKey Pkey)) (typestr : String) (cout : H) (abstract : Bool)
        (selection : Selection) (w : W)
        → Sealed
            (record ctx { pwcb = pwcb })
            form
            key
            (asn.sn2nid typestr)
            (encode asn u alloc_ok bio_method bio_made typestr kind form ctx cout key abstract
              selection pwcb w)
    unfolding encode key2any_encode
    encode-Sealed key typestr cout abstract selection w =
        elim (Bool-cases (not abstract && is_selected kind selection)) [
          | inl wanted ↦ rw (wanted) (by_key key)
          | inr refused ↦ rw (refused) tt
        ]
      where
        by_key :
            (key : Option (OqsxKey Pkey))
            → Sealed
                (record ctx { pwcb = pwcb })
                form
                key
                (asn.sn2nid typestr)
                (key2any_encode asn u alloc_ok bio_method bio_made ctx cout key typestr kind form
                  pwcb w)
        by_key none = tt
        by_key (some k) = encode_key-Sealed k (asn.sn2nid typestr) cout w

  set_save-intent :
      (ctx : Key2anyCtx Cipher) (save : Option (Option ℕ))
      → (set_save asn ctx save).0.cipher_intent ≡ ctx.cipher_intent
  set_save-intent ctx none = refl
  set_save-intent ctx (some none) = refl
  set_save-intent ctx (some (some n)) = refl

  -- A named cipher is intended, whether or not it is found.
  set_ctx_params-intent :
      (ctx : Key2anyCtx Cipher) (name : String) (props : Option (Option String))
      (save : Option (Option ℕ))
      → (key2any_set_ctx_params asn ctx
          (some (utf8_ptr (some name)))
          (with_props props)
          save).0.cipher_intent
        ≡ true
  unfolding key2any_set_ctx_params set_cipher_param
  set_ctx_params-intent ctx name none save =
      elim (Bool-cases (is_null (asn.cipher_fetch name none))) [
        | inl lost ↦ rw (lost) refl
        | inr found ↦ rw (found) (set_save-intent _ save)
      ]
  set_ctx_params-intent ctx name (some props) save =
      elim (Bool-cases (is_null (asn.cipher_fetch name props))) [
        | inl lost ↦ rw (lost) refl
        | inr found ↦ rw (found) (set_save-intent _ save)
      ]

  set_save-cipher :
      (ctx : Key2anyCtx Cipher) (save : Option (Option ℕ))
      → (set_save asn ctx save).0.cipher ≡ ctx.cipher
  set_save-cipher ctx none = refl
  set_save-cipher ctx (some none) = refl
  set_save-cipher ctx (some (some n)) = refl

  -- The cipher of the context is the one that was found, or none.
  set_ctx_params-cipher :
      (ctx : Key2anyCtx Cipher) (name : String) (props : Option (Option String))
      (save : Option (Option ℕ))
      → (key2any_set_ctx_params asn ctx
          (some (utf8_ptr (some name)))
          (with_props props)
          save).0.cipher
        ≡ asn.cipher_fetch name (given props)
  unfolding key2any_set_ctx_params set_cipher_param
  set_ctx_params-cipher ctx name none save =
      elim (Bool-cases (is_null (asn.cipher_fetch name none))) [
        | inl lost ↦ rw (lost) refl
        | inr found ↦ rw (found) (set_save-cipher _ save)
      ]
  set_ctx_params-cipher ctx name (some props) save =
      elim (Bool-cases (is_null (asn.cipher_fetch name props))) [
        | inl lost ↦ rw (lost) refl
        | inr found ↦ rw (found) (set_save-cipher _ save)
      ]

  -- After an encoder was told the name of a cipher, with properties or without, whether or not the cipher is
  -- found, all that it writes of a private key, as PrivateKeyInfo or EncryptedPrivateKeyInfo, DER or PEM,
  -- is the encryption, with the cipher that was fetched by that name and the passphrase that the
  -- callback gave, of the PrivateKeyInfo with the number of the algorithm and the key's private part.
  pub encode-set_ctx_params :
      {Pkey W H : Type 0} (u : Upcalls W H) (alloc_ok bio_method bio_made : Bool) (kind : Kind)
      (form : Form) (pwcb : Option (Option Bytes)) (ctx : Key2anyCtx Cipher) (name : String)
      (props : Option (Option String)) (save : Option (Option ℕ)) (key : Option (OqsxKey Pkey))
      (typestr : String) (cout : H) (key_abstract : Bool) (selection : Selection) (w : W)
      → IsPrivate kind
      → Post
          (IsSealed (asn.cipher_fetch name (given props)) pwcb key (asn.sn2nid typestr) form)
          (encode asn u alloc_ok bio_method bio_made typestr kind form
            (key2any_set_ctx_params asn ctx (some (utf8_ptr (some name))) (with_props props) save).0
            cout
            key
            key_abstract
            selection
            pwcb
            w).result
  encode-set_ctx_params u alloc_ok bio_method bio_made kind form pwcb ctx name props save key
        typestr cout key_abstract selection w is_private =
      subst
        (λ cipher.
          Post (IsSealed cipher pwcb key (asn.sn2nid typestr) form)
            (encode asn u alloc_ok bio_method bio_made typestr kind form
              (key2any_set_ctx_params asn ctx (some (utf8_ptr (some name))) (with_props props)
                save).0
              cout key key_abstract selection pwcb w).result)
        (set_ctx_params-cipher ctx name props save)
        (encode-Sealed u alloc_ok bio_method bio_made kind form pwcb is_private _
          (set_ctx_params-intent ctx name props save) key typestr cout key_abstract selection w)
