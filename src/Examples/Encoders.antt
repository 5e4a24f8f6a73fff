-- ===== src/Examples/Encoders.antt =====
-- Encoders and the decoder of a PrivateKeyInfo, with ASN.1 that puts a byte in front, and a core that counts
-- the references to its BIO.
use oqs_provider.Base.{
  ℕ, ◌+◌, ◌-◌, ◌<◌, ◌^◌, ◌≡◌, refl, Bool, true, false, Option, none, some, List, [], ◌∷◌, ◌++◌,
  length, arith,
}
use oqs_provider.Run.{Post, ok, ◌>>=◌}
use oqs_provider.Memory.{Bytes, encode_uint32}
use oqs_provider.Extern.{Asn1, Envelope, der, evp_ec, prime256v1, dilithium_2}
use oqs_provider.Key.{OqsxKey, EvpInfo, hyb_sig}
use oqs_provider.Key.Shape.{IsHybrid, IsNew}
use oqs_provider.Key.Material.{material}
use oqs_provider.Key.Layout.{framed, zeros}
use oqs_provider.Key.New.Examples.{new_key, made}
use oqs_provider.Key.Decode.{key_new_from_nid}
use oqs_provider.Key.Decode.Rebuild.{der_key}
use oqs_provider.NidTable.{NidName, get_oqsname, get_keytype, get_secbits, find_nid}
use oqs_provider.Bio.{Upcalls, no_upcalls, prov_bio_up_ref, prov_bio_free}
use oqs_provider.Bio.Balance.{CountsReferences}
use oqs_provider.KeyMgmt.{Selection}
use oqs_provider.Decoder.{check_selection, hand_over, decode}
use oqs_provider.Decoder.Accepted.{desc_of, key_in, decode-check_selection}
use oqs_provider.Decoder.Instances.{Structure}
use oqs_provider.Decoder.Keytype.{private_key_info_desc, public_key_info_desc, newctx_evp_type}
use oqs_provider.Encoder.Envelope.{Key2anyCtx}
use oqs_provider.Encoder.Key2any.{
  private_key_info, subject_public_key_info, only_public, encode, key2any_set_ctx_params, utf8_ptr,
  only_private,
}
use oqs_provider.Encoder.Key2any.Sealed.{IsSealed, encode-set_ctx_params}
use oqs_provider.Encoder.Key2any.Balance.{encode-core}
use oqs_provider.Encoder.Text.{newline, print_labeled_buf}
use oqs_provider.Encoder.Text.Hex.{append, read_hex, read_hex-print_labeled_buf}
use oqs_provider.Pipeline.{Carries, decode-encode}
use oqs_provider.Pipeline.Public.{CarriesPublic, decode-encode_public}
use oqs_provider.Key.Decode.Public.{public_buffer}
use oqs_provider.Key.Decode.Rebuild.{public_half}
use oqs_provider.Examples.Toy.{toy_evp, toy_oqs, always}

abbrev envelope : ℕ → Bytes → Option Envelope
envelope n bs = some (record { nid = n; params_absent = true; bytes = bs })

abbrev opened : Bytes → Option Envelope
opened [] = none
opened (n ∷ bs) = envelope n bs

abbrev behind_tag : Bytes → Option Bytes
behind_tag [] = none
behind_tag (x ∷ bs) = some bs

abbrev toy_asn : Asn1
toy_asn = record {
  Cipher = ℕ;
  sn2nid = λ name. 8;
  nid2sn = λ n. some "p256_dilithium2";
  object_length = λ n. some 11;
  i2d_octet_string = λ bs. some (4 ∷ bs);
  d2i_octet_string = behind_tag;
  p8info = envelope;
  x509_pubkey = envelope;
  write_p8info = λ form p8. some (p8.nid ∷ p8.bytes);
  write_x509_pubkey = λ form p8. some (p8.nid ∷ p8.bytes);
  d2i_p8info = opened;
  d2i_x509_pubkey = opened;
  cipher_fetch = λ name props. some 3;
  pkcs8_encrypt = λ cipher kstr p8. some (cipher ∷ []);
  write_p8 = λ form bs. some bs;
}

-- The state of the core is a count.
abbrev give_back : Option ℕ → ℕ → Bool × ℕ
give_back none w = (false, w)
give_back (some h) w = (true, w - 1)

abbrev counting : Upcalls ℕ ℕ
counting = record no_upcalls { up_ref = some (λ h w. (true, w + 1)); free = some give_back }

counting-CountsReferences : CountsReferences counting
unfolding prov_bio_up_ref prov_bio_free
counting-CountsReferences = record {
  taken = λ core w e. omega arith;
  not_taken = λ core w e. absurd cc;
  null_free = λ w. refl;
}

abbrev p256 : EvpInfo
p256 = record {
  keytype = evp_ec;
  nid = prime256v1;
  raw_key_support = false;
  length_public_key = 65;
  length_private_key = 121;
  kex_length_secret = 32;
  length_signature = 72;
}

new_key-IsHybrid : IsHybrid new_key p256
new_key-IsHybrid = record {
  two = refl;
  info = refl;
  type = refl;
  fits = tt;
  publen = refl;
  privlen = refl;
}

new_key-IsNew : IsNew new_key
new_key-IsNew = record {
  one_reference = refl;
  no_pubkey = refl;
  no_privkey = refl;
  no_classical = refl;
}

abbrev rows : List NidName
rows =
    record {
      nid = 8;
      tlsname = "p256_dilithium2";
      oqsname = dilithium_2;
      keytype = hyb_sig;
      secbits = 128;
    }
    ∷ []

made_from_nid : key_new_from_nid toy_evp toy_oqs always rows toy_asn.nid2sn none 8 ≡ ok new_key
unfolding key_new_from_nid get_oqsname get_keytype get_secbits find_nid
made_from_nid = made

abbrev classical : Bytes
classical = zeros 65

abbrev opub : Bytes
opub = 8 ∷ 5 ∷ 6 ∷ []

abbrev opriv : Bytes
opriv = 8 ∷ 9 ∷ []

abbrev full_key : OqsxKey Bytes
full_key = material new_key p256 classical classical classical opub opriv

abbrev blob : Bytes
blob = framed classical opriv ++ opub

toy_asn-Carries : Carries toy_asn "p256_dilithium2" 8 blob (4 ∷ blob) (8 ∷ 4 ∷ blob)
toy_asn-Carries = record {
  known = refl;
  defined = omega arith;
  object_size = 11;
  object = refl;
  has_object = omega arith;
  octets = refl;
  octets_back = refl;
  nonempty = omega arith;
  enclosed = refl;
  written = refl;
  read_back = refl;
}

abbrev plain_ctx : Key2anyCtx ℕ
plain_ctx = record { save_parameters = 1; cipher_intent = false; cipher = none; pwcb = none }

abbrev take_it : OqsxKey Bytes → Bool × Bool
take_it k = (true, true)

referenced : (prov_bio_up_ref counting (some 0) 1).0 ≡ true
unfolding prov_bio_up_ref
referenced = refl

small : length classical < 2 ^ 31
small = omega arith

decode-encode_example :
    ((encode toy_asn counting true true true "p256_dilithium2" private_key_info der plain_ctx 0
        (some full_key)
        false
        only_private
        none
        1).result
      >>= λ written.
          decode
            (private_key_info_desc toy_asn toy_evp toy_oqs always rows
              (newctx_evp_type toy_asn 0 "p256_dilithium2"))
            take_it
            (some written)
            only_private)
    ≡ ok (record { result = true; offered = some full_key; freed_keys = [] })
decode-encode_example =
    decode-encode toy_asn toy_evp toy_oqs always rows new_key new_key p256 new_key-IsHybrid
      new_key-IsHybrid new_key-IsNew refl classical classical classical classical opub opriv
      (4 ∷ blob) (8 ∷ 4 ∷ blob) 8 small small refl refl (omega arith) (omega arith)
      (der_key refl refl refl refl) refl refl toy_asn-Carries made_from_nid counting true plain_ctx
      0 only_private none 1 refl refl referenced take_it

encode-core_example :
    (encode toy_asn counting true true true "p256_dilithium2" private_key_info der plain_ctx 0
      (some full_key)
      false
      only_private
      none
      1).core
    ≡ 1
encode-core_example =
    encode-core toy_asn counting counting-CountsReferences true true true private_key_info der none
      plain_ctx (some full_key) "p256_dilithium2" 0 false only_private 1

abbrev set_ctx : Key2anyCtx ℕ
set_ctx =
    (key2any_set_ctx_params toy_asn plain_ctx (some (utf8_ptr (some "AES-256-CBC"))) none none).0

encode-set_ctx_params_example :
    Post
      (IsSealed toy_asn (some 3) (some (some (7 ∷ []))) (some full_key) 8 der)
      (encode toy_asn counting true true true "p256_dilithium2" private_key_info der set_ctx 0
        (some full_key)
        false
        only_private
        (some (some (7 ∷ [])))
        1).result
encode-set_ctx_params_example =
    encode-set_ctx_params toy_asn counting true true true private_key_info der
      (some (some (7 ∷ []))) plain_ctx "AES-256-CBC" none none (some full_key) "p256_dilithium2" 0
      false only_private 1 tt

read_hex-print_labeled_buf_example :
    (text : List ℕ) × (print_labeled_buf append (80 ∷ 58 ∷ []) (1 ∷ 255 ∷ []) []
      ≡ ok ([] ++ (((80 ∷ 58 ∷ []) ++ newline) ++ text)))
    × (read_hex text ≡ 1 ∷ 255 ∷ [])
read_hex-print_labeled_buf_example =
    read_hex-print_labeled_buf (80 ∷ 58 ∷ []) [] (1 ∷ 255 ∷ []) (omega arith, (omega arith, tt))

abbrev public_blob : Bytes
public_blob = public_buffer p256 classical opub

toy_asn-CarriesPublic : CarriesPublic toy_asn "p256_dilithium2" 8 public_blob (8 ∷ public_blob)
unfolding encode_uint32
toy_asn-CarriesPublic = record {
  known = refl;
  defined = omega arith;
  object_size = 11;
  object = refl;
  has_object = omega arith;
  nonempty = omega arith;
  enclosed = refl;
  written = refl;
  read_back = refl;
}

abbrev half_key : OqsxKey Bytes
half_key = public_half toy_evp new_key p256 new_key-IsHybrid classical classical opub small

decode-encode_public_example :
    ((encode toy_asn counting true true true "p256_dilithium2" subject_public_key_info der plain_ctx
        0
        (some full_key)
        false
        only_public
        none
        1).result
      >>= λ written.
          decode
            (public_key_info_desc toy_asn toy_evp toy_oqs always rows)
            take_it
            (some written)
            only_public)
    ≡ ok (record { result = true; offered = some half_key; freed_keys = [] })
decode-encode_public_example =
    decode-encode_public toy_asn toy_evp toy_oqs always rows new_key new_key p256 new_key-IsHybrid
      new_key-IsHybrid new_key-IsNew refl classical classical classical classical opub opriv
      (8 ∷ public_blob) 8 small refl (omega arith) refl refl toy_asn-CarriesPublic made_from_nid
      counting plain_ctx 0 only_public none 1 refl refl referenced take_it

-- The selections of a private key with the parameters, which the decoder of a PrivateKeyInfo accepts.
abbrev private_and_params : Selection
private_and_params = record {
  private_key = true;
  public_key = false;
  domain_parameters = true;
  other_parameters = false;
}

is_accepted :
    check_selection private_and_params
      (desc_of toy_asn toy_evp toy_oqs always rows Structure.private_key_info 8).selection_mask
    ≡ true
unfolding check_selection
is_accepted = refl

decode-check_selection_example :
    decode
      (private_key_info_desc toy_asn toy_evp toy_oqs always rows 8)
      take_it
      (some (8 ∷ 4 ∷ blob))
      private_and_params
    ≡ (do
      key ← key_in toy_asn toy_evp toy_oqs always rows Structure.private_key_info 8 (8 ∷ 4 ∷ blob)
      ok (hand_over (private_key_info_desc toy_asn toy_evp toy_oqs always rows 8) take_it [] key))
decode-check_selection_example =
    decode-check_selection toy_asn toy_evp toy_oqs always rows 8 take_it Structure.private_key_info
      private_and_params (8 ∷ 4 ∷ blob) is_accepted
