-- ===== src/Examples/Kems.antt =====
-- The hybrid KEM.
use oqs_provider.Base.{◌≡◌, refl, some, [], ◌∷◌, arith}
use oqs_provider.Run.{ok, ◌>>=◌}
use oqs_provider.Memory.{Bytes}
use oqs_provider.Key.{OqsxKey}
use oqs_provider.Key.Material.{material}
use oqs_provider.Kem.{negative, success, hyb_encaps, hyb_decaps}
use oqs_provider.Kem.Hybrid.{Sent}
use oqs_provider.Kem.Agreement.{
  Received, classical_bytes, hyb_decaps-hyb_encaps, hyb_decaps-wrong_length,
}
use oqs_provider.Key.{kem_ctx}
use oqs_provider.Key.Material.{plain_material}
use oqs_provider.Kem.{qs_encaps, qs_decaps}
use oqs_provider.Kem.Plain.{qs_decaps-qs_encaps}
use oqs_provider.Base.{none, true}
use oqs_provider.Key.Layout.{framed}
use oqs_provider.KeyMgmt.{octet_string, encoded_public_key}
use oqs_provider.KeyMgmt.Params.{set_params}
use oqs_provider.KeyMgmt.Params.RoundTrip.{set_params-encoded}
use oqs_provider.KeyMgmt.Handshake.{hyb_decaps-share, material-IsFilled}
use oqs_provider.Examples.Toy.{
  plain_key, toy_evp, toy_oqs, toy_kem, raw_info, kem_key, kem_key-IsHybrid,
}

abbrev cpub : Bytes
cpub = 8 ∷ 1 ∷ []

abbrev opub : Bytes
opub = 8 ∷ 5 ∷ 6 ∷ []

abbrev opriv : Bytes
opriv = 8 ∷ 9 ∷ []

abbrev full_key : OqsxKey Bytes
full_key = material kem_key raw_info cpub cpub cpub opub opriv

-- The sender's classical key, and the secrets.
abbrev eph : Bytes
eph = 3 ∷ 1 ∷ []

abbrev c1 : Bytes
c1 = 3 ∷ 4 ∷ []

abbrev s0 : Bytes
s0 = 11 ∷ 2 ∷ []

abbrev s1 : Bytes
s1 = 3 ∷ 3 ∷ []

-- One byte more than is needed.
abbrev buffer : Bytes
buffer = 0 ∷ 0 ∷ 0 ∷ 0 ∷ 99 ∷ []

sent : Sent toy_evp toy_oqs raw_info toy_kem cpub opub 3 cpub eph eph c1 s0 s1
sent = record {
  is_peer = refl;
  made = refl;
  agreed = refl;
  encoded = refl;
  enclosed = refl;
  length_ceph = refl;
  length_s0 = refl;
  length_c1 = refl;
  length_s1 = refl;
}

received :
    Received toy_evp toy_oqs raw_info toy_kem
      (classical_bytes toy_evp toy_oqs raw_info cpub opriv)
      opriv
      cpub
      eph
      eph
      c1
      s0
      s1
received = record {
  opened = refl;
  is_sender = refl;
  agreed = refl;
  disclosed = refl;
  length_ceph = refl;
  length_c1 = refl;
  length_s0 = refl;
  length_s1 = refl;
}

hyb_decaps-hyb_encaps_example :
    (hyb_encaps toy_evp toy_oqs
        (some full_key)
        (record { ctlen = 0; secretlen = 0; ct = some buffer; secret = some buffer })
        3
      >>= λ e.
          hyb_decaps toy_evp toy_oqs
            (some full_key)
            (record { secretlen = 0; secret = some buffer })
            e.0.ct
            e.0.ctlen)
    ≡ ok (record { secretlen = 4; secret = some (11 ∷ 2 ∷ 3 ∷ 3 ∷ 99 ∷ []) }, success)
hyb_decaps-hyb_encaps_example =
    hyb_decaps-hyb_encaps toy_evp toy_oqs kem_key raw_info toy_kem kem_key-IsHybrid refl cpub cpub
      cpub opub opriv refl refl refl 3 cpub eph cpub eph eph c1 s0 s1 sent received buffer buffer
      buffer (omega arith) (omega arith) (omega arith)

hyb_decaps-wrong_length_example :
    hyb_decaps toy_evp toy_oqs
      (some full_key)
      (record { secretlen = 0; secret = some buffer })
      (some buffer)
      5
    ≡ ok (record { secretlen = 4; secret = some buffer }, negative 1)
hyb_decaps-wrong_length_example =
    hyb_decaps-wrong_length toy_evp toy_oqs full_key raw_info toy_kem (some buffer) buffer 0 5 refl
      refl (λ e. absurd (omega arith))

abbrev plain_kem_key : OqsxKey Bytes
plain_kem_key = record plain_key { qs_ctx = kem_ctx toy_kem }

qs_decaps-qs_encaps_example :
    (qs_encaps toy_evp toy_oqs
        (some (plain_material plain_kem_key opub opriv))
        (record { ctlen = 0; secretlen = 0; ct = some buffer; secret = some buffer })
        3
      >>= λ e.
          qs_decaps toy_evp toy_oqs
            (some (plain_material plain_kem_key opub opriv))
            (record { secretlen = 0; secret = some buffer })
            e.0.ct
            e.0.ctlen)
    ≡ ok (record { secretlen = 2; secret = some (3 ∷ 3 ∷ 0 ∷ 0 ∷ 99 ∷ []) }, success)
qs_decaps-qs_encaps_example =
    qs_decaps-qs_encaps toy_evp toy_oqs plain_kem_key toy_kem refl opub opriv refl refl 3 c1 s1 refl
      refl refl refl buffer buffer buffer (omega arith) (omega arith) (omega arith)

-- Another pair, whose public half is overwritten by the share.
abbrev peer_pub : Bytes
peer_pub = 7 ∷ 1 ∷ []

hyb_decaps-share_example :
    (encoded_public_key full_key >>= λ encoded.
    set_params true true
      (material kem_key raw_info peer_pub peer_pub peer_pub (7 ∷ 5 ∷ 6 ∷ []) (7 ∷ 9 ∷ []))
      (some (octet_string encoded))
      none
    >>= λ taken.
        hyb_encaps toy_evp toy_oqs
          (some taken.0)
          (record { ctlen = 0; secretlen = 0; ct = some buffer; secret = some buffer })
          3
        >>= λ e.
            hyb_decaps toy_evp toy_oqs
              (some full_key)
              (record { secretlen = 0; secret = some buffer })
              e.0.ct
              e.0.ctlen)
    ≡ ok (record { secretlen = 4; secret = some (11 ∷ 2 ∷ 3 ∷ 3 ∷ 99 ∷ []) }, success)
hyb_decaps-share_example =
    hyb_decaps-share toy_evp toy_oqs kem_key kem_key raw_info toy_kem kem_key-IsHybrid
      kem_key-IsHybrid refl refl cpub peer_pub cpub cpub opub opriv peer_pub peer_pub
      (7 ∷ 5 ∷ 6 ∷ []) (7 ∷ 9 ∷ []) refl refl refl refl refl 3 cpub eph cpub eph eph c1 s0 s1 sent
      received buffer buffer buffer (omega arith) (omega arith) (omega arith) true true

set_params-encoded_example :
    (key' : OqsxKey Bytes) × (set_params true true full_key
        (some (octet_string (1 ∷ 2 ∷ 3 ∷ 4 ∷ 5 ∷ [])))
        none
      ≡ ok (key', true))
    × (encoded_public_key key' ≡ ok (1 ∷ 2 ∷ 3 ∷ 4 ∷ 5 ∷ []))
    × (key'.privkey ≡ none)
set_params-encoded_example =
    set_params-encoded full_key (framed cpub opub) (1 ∷ 2 ∷ 3 ∷ 4 ∷ 5 ∷ [])
      (material-IsFilled kem_key raw_info toy_kem kem_key-IsHybrid refl cpub cpub cpub opub opriv
        refl refl)
      true true refl
