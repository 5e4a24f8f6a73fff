-- ===== src/Decoder/Accepted.antt =====
-- What the decoders of the provider do with a selection that der2key_check_selection of
-- oqsprov/oqs_decode_der2key.c accepts for them.
use oqs_provider.Base.{ℕ, ◌≡◌, refl, Bool, true, false, Option, none, some, List, [], if◌then◌else◌}
use oqs_provider.Run.{Run, ok, err, ub, ◌>>=◌}
use oqs_provider.Memory.{Bytes}
use oqs_provider.Extern.{Evp, Oqs, Alloc, Asn1}
use oqs_provider.Key.{OqsxKey}
use oqs_provider.KeyMgmt.{Selection}
use oqs_provider.NidTable.{NidName}
use oqs_provider.Decoder.{
  check_selection, key_list, go_on, KeytypeDesc, Decoded, private_attempt, public_attempt,
  hand_over, finish, decode_params, decode_public, decode_private, decode_from, decode,
}
use oqs_provider.Decoder.Keytype.{
  private_mask, public_mask, from_p8info, d2i_pkcs8_key, d2i_pubkey_key, private_key_info_desc,
  public_key_info_desc,
}
use oqs_provider.Decoder.Instances.{Structure, private_key_info, subject_public_key_info}

abbrev bits : (a b c d : Bool) → Selection
bits a b c d = record {
  private_key = a;
  public_key = b;
  domain_parameters = c;
  other_parameters = d;
}

module _ (asn : Asn1) (evp : Evp) (oqs : Oqs) (alloc : Alloc) (rows : List NidName) where
  open evp use {Pkey}

  -- The description that MAKE_DECODER fills for a structure, and the function that reads it.
  abbrev pub desc_of : Structure → (evp_type : ℕ) → KeytypeDesc (OqsxKey Pkey)
  desc_of private_key_info evp_type = private_key_info_desc asn evp oqs alloc rows evp_type
  desc_of subject_public_key_info evp_type = public_key_info_desc asn evp oqs alloc rows

  abbrev pub key_in : Structure → (evp_type : ℕ) → Bytes → Run (Option (OqsxKey Pkey))
  key_in private_key_info evp_type der = do
    r ← d2i_pkcs8_key asn evp oqs alloc rows evp_type der
    ok r.0
  key_in subject_public_key_info evp_type der = d2i_pubkey_key asn evp oqs alloc rows der

  module _ (evp_type : ℕ) (data_cb : OqsxKey Pkey → Bool × Bool) where
    abbrev handed : Structure → Run (Option (OqsxKey Pkey)) → Run (Decoded (OqsxKey Pkey))
    handed kind m = do key ← m; ok (hand_over (desc_of kind evp_type) data_cb [] key)

    abbrev Reads : Structure → (a b c d : Bool) → Bytes → Type 0
    Reads kind a b c d der =
        decode (desc_of kind evp_type) data_cb (some der) (bits a b c d)
        ≡ handed kind (key_in kind evp_type der)

    -- What is behind the attempt at a private key, by whether the decoder guesses.
    behind_private :
        (guess : Bool)
        → Selection
        → Bytes
        → Run (Option (OqsxKey Pkey) × Bool)
        → Run (Decoded (OqsxKey Pkey))
    behind_private guess selection der m = do
      made ← m
      if made.1
          then ok (record { result = false; offered = none; freed_keys = key_list made.0 })
          else go_on (desc_of private_key_info evp_type) data_cb guess made.0
              (decode_public (desc_of private_key_info evp_type) data_cb guess selection der)

    -- The flag of a fatal failure is not set.
    abbrev not_fatal : Run (Option (OqsxKey Pkey)) → Run (Option (OqsxKey Pkey) × Bool)
    not_fatal read = do key ← read; ok (key, false)

    abbrev Handed : Run (Decoded (OqsxKey Pkey)) → Run (Option (OqsxKey Pkey)) → Type 0
    Handed m read = m ≡ handed private_key_info (do r ← not_fatal read; ok r.0)

    behind_private-asked :
        (selection : Selection) (der : Bytes) (read : Run (Option (OqsxKey Pkey)))
        → Handed (behind_private false selection der (not_fatal read)) read
    unfolding behind_private decode_public decode_params finish
    behind_private-asked selection der (ok none) = refl
    behind_private-asked selection der (ok (some k)) = refl
    behind_private-asked selection der (err e) = refl
    behind_private-asked selection der ub = refl

    behind_private-guess :
        (der : Bytes) (read : Run (Option (OqsxKey Pkey)))
        → Handed (behind_private true private_mask der (not_fatal read)) read
    unfolding behind_private decode_public decode_params finish
    behind_private-guess der (ok none) = refl
    behind_private-guess der (ok (some k)) = refl
    behind_private-guess der (err e) = refl
    behind_private-guess der ub = refl

    private-Reads :
        (a b c d : Bool) (der : Bytes)
        → check_selection (bits a b c d) (desc_of private_key_info evp_type).selection_mask ≡ true
        → Reads private_key_info a b c d der
    unfolding check_selection decode decode_from decode_private private_attempt behind_private
        d2i_pkcs8_key
    private-Reads true b c d der e =
        behind_private-asked (bits true b c d) der
          (from_p8info asn evp oqs alloc rows evp_type (asn.d2i_p8info der))
    private-Reads false true c d der e = absurd cc
    private-Reads false false true d der e = absurd cc
    private-Reads false false false true der e = absurd cc
    private-Reads false false false false der e =
        behind_private-guess der (from_p8info asn evp oqs alloc rows evp_type (asn.d2i_p8info der))

    behind_public :
        (guess : Bool)
        → Selection
        → Bytes
        → Run (Option (OqsxKey Pkey))
        → Run (Decoded (OqsxKey Pkey))
    behind_public guess selection der m = do
      made ← m
      go_on (desc_of subject_public_key_info evp_type) data_cb guess made
          (decode_params (desc_of subject_public_key_info evp_type) data_cb guess selection der)

    behind_public-asked :
        (selection : Selection) (der : Bytes) (read : Run (Option (OqsxKey Pkey)))
        → behind_public false selection der read ≡ handed subject_public_key_info read
    unfolding behind_public decode_params finish
    behind_public-asked selection der (ok none) = refl
    behind_public-asked selection der (ok (some k)) = refl
    behind_public-asked selection der (err e) = refl
    behind_public-asked selection der ub = refl

    behind_public-guess :
        (der : Bytes) (read : Run (Option (OqsxKey Pkey)))
        → behind_public true public_mask der read ≡ handed subject_public_key_info read
    unfolding behind_public decode_params finish
    behind_public-guess der (ok none) = refl
    behind_public-guess der (ok (some k)) = refl
    behind_public-guess der (err e) = refl
    behind_public-guess der ub = refl

    public-Reads :
        (a b c d : Bool) (der : Bytes)
        → check_selection (bits a b c d) (desc_of subject_public_key_info evp_type).selection_mask
          ≡ true
        → Reads subject_public_key_info a b c d der
    unfolding check_selection decode decode_from decode_private public_attempt decode_public
        behind_public
    public-Reads true b c d der e = absurd cc
    public-Reads false true c d der e =
        behind_public-asked (bits false true c d) der (d2i_pubkey_key asn evp oqs alloc rows der)
    public-Reads false false true d der e = absurd cc
    public-Reads false false false true der e = absurd cc
    public-Reads false false false false der e =
        behind_public-guess der (d2i_pubkey_key asn evp oqs alloc rows der)

    -- The decoders of PrivateKeyInfo and of SubjectPublicKeyInfo, for every selection that
    -- der2key_check_selection accepts for them, the zero selection included, and an input that was read: the
    -- key that the input holds is handed over to the callback as it is, whatever else is selected, and
    -- freed only if the callback does not take it. For an input without a key of the decoder, decoding
    -- succeeds and hands nothing over.
    pub decode-check_selection :
        (kind : Structure) (selection : Selection) (der : Bytes)
        → check_selection selection (desc_of kind evp_type).selection_mask ≡ true
        → decode (desc_of kind evp_type) data_cb (some der) selection ≡ (do
          key ← key_in kind evp_type der
          ok (hand_over (desc_of kind evp_type) data_cb [] key))
    decode-check_selection private_key_info selection der accepted =
        private-Reads selection.private_key selection.public_key selection.domain_parameters
          selection.other_parameters der accepted
    decode-check_selection subject_public_key_info selection der accepted =
        public-Reads selection.private_key selection.public_key selection.domain_parameters
          selection.other_parameters der accepted
