-- ===== src/KeyMgmt/Handshake.antt =====
-- A hybrid key share: oqs_kmgmt.c gives and takes the encoded public key, and oqs_kem.c encapsulates to it and
-- decapsulates, of oqsprov/.
use oqs_provider.Base.{
  ℕ, ◌+◌, ◌-◌, ◌≤◌, ◌≡◌, refl, sym, ap, ◌∙◌, Bool, true, none, some, [], ◌∷◌, ◌++◌, length, take,
  drop, arith, length-append, length-replicate,
}
use oqs_provider.Run.{ok, ◌>>=◌}
use oqs_provider.Memory.{Bytes, size_of_uint32, at_offset, encode_uint32}
use oqs_provider.Memory.Laws.{read_rest, length-encode_uint32}
use oqs_provider.Extern.{Evp, Oqs, OqsKem}
use oqs_provider.Key.{
  OqsxKey, EvpInfo, KeyType, sig, kem, ecp_hyb_kem, ecx_hyb_kem, hyb_sig, other, QsCtx, kem_ctx,
}
use oqs_provider.Key.Shape.{IsHybrid, FitsType, is_hybrid_type, qs_publen}
use oqs_provider.Key.Layout.{zeros, framed, length-framed}
use oqs_provider.Key.Material.{material}
use oqs_provider.Kem.{success, hyb_encaps, hyb_decaps}
use oqs_provider.Kem.Hybrid.{Sent, hyb_encaps-sent, hyb_encaps-privkey}
use oqs_provider.Kem.Agreement.{Received, classical_bytes, hyb_decaps-received}
use oqs_provider.KeyMgmt.{octet_string, encoded_public_key}
use oqs_provider.KeyMgmt.Params.{is_hybrid_kem, set_params}
use oqs_provider.KeyMgmt.Params.RoundTrip.{
  encoded_public_key-kind, front, IsFilled, set_params-taken, encoded_length,
}

hybrid_kem_type :
    (t : KeyType) (qs : QsCtx) (k : OqsKem)
    → qs ≡ kem_ctx k
    → is_hybrid_type t ≡ true
    → FitsType t qs
    → is_hybrid_kem t ≡ true
hybrid_kem_type t (kem_ctx k') k e h fits = go t h fits
  where
    go : (t : KeyType) → is_hybrid_type t ≡ true → FitsType t (kem_ctx k') → is_hybrid_kem t ≡ true
    go sig h f = absurd cc
    go kem h f = absurd cc
    go ecp_hyb_kem h f = refl
    go ecx_hyb_kem h f = refl
    go hyb_sig h f = elim f [ ]
    go other h f = elim f [ ]
hybrid_kem_type t (QsCtx.sig_ctx s) k e h fits = absurd cc

module _ {Pkey : Type 0} (key : OqsxKey Pkey) (i : EvpInfo) (k : OqsKem) (h : IsHybrid key i)
    (is_kem : key.qs_ctx ≡ kem_ctx k) (p : Pkey) (cpub cpriv opub opriv : Bytes)
    (cpub_len : length cpub ≡ i.length_public_key)
    (opub_len : length opub ≡ k.length_public_key) where
  abbrev padded : Bytes
  padded = opub ++ zeros (i.length_public_key - length cpub)

  kem_kind : is_hybrid_kem key.keytype ≡ true
  kem_kind = hybrid_kem_type key.keytype key.qs_ctx k is_kem h.type h.fits

  qs_len : qs_publen key.qs_ctx ≡ length opub
  qs_len = ap qs_publen is_kem ∙ sym opub_len

  payload_length : length (cpub ++ padded) ≡ key.pubkeylen - size_of_uint32
  payload_length = omega (
    arith,
    h.publen,
    qs_len,
    cpub_len,
    length-append cpub padded,
    length-append opub (zeros (i.length_public_key - length cpub)),
    length-replicate {A = ℕ} (i.length_public_key - length cpub) 0,
  )

  pub encoded_public_key-material :
      encoded_public_key (material key i p cpub cpriv opub opriv) ≡ ok (cpub ++ padded)
  encoded_public_key-material =
      encoded_public_key-kind (material key i p cpub cpriv opub opriv)
      ∙ rw (kem_kind) (
          read_rest (encode_uint32 (length cpub)) (cpub ++ padded) size_of_uint32
            (key.pubkeylen - size_of_uint32) (sym (length-encode_uint32 (length cpub)))
            (sym payload_length))

  pub material-IsFilled : IsFilled (material key i p cpub cpriv opub opriv) (framed cpub padded)
  material-IsFilled = record {
    has = refl;
    len =
        omega
          (arith, payload_length, h.publen, length-framed cpub padded, length-append cpub padded);
    slots = at_offset (length cpub + size_of_uint32) ∷ [];
    first = λ hybrid. refl;
    header = λ hybrid. omega (arith, length-framed cpub padded);
  }

-- The header that a buffer of the same layout keeps.
take_header : (c rest : Bytes) → take size_of_uint32 (framed c rest) ≡ encode_uint32 (length c)
unfolding encode_uint32
take_header c rest = refl

module _ (evp : Evp) (oqs : Oqs) where
  open evp use {Pkey}

  module _ (key peer : OqsxKey Pkey) (i : EvpInfo) (k : OqsKem) (h : IsHybrid key i)
      (h' : IsHybrid peer i) (is_kem : key.qs_ctx ≡ kem_ctx k) (is_kem' : peer.qs_ctx ≡ kem_ctx k)
      (p p' : Pkey) (cpub cpriv opub opriv cpub' cpriv' opub' opriv' : Bytes)
      (cpub_len : length cpub ≡ i.length_public_key) (opub_len : length opub ≡ k.length_public_key)
      (opriv_len : length opriv ≡ k.length_secret_key)
      (cpub_len' : length cpub' ≡ i.length_public_key)
      (opub_len' : length opub' ≡ k.length_public_key) where
    abbrev share : Bytes
    share = cpub ++ (opub ++ zeros (i.length_public_key - length cpub))

    share-length : length share ≡ encoded_length (material peer i p' cpub' cpriv' opub' opriv')
    share-length =
        payload_length key i k h is_kem p cpub cpriv opub opriv cpub_len opub_len
        ∙ rw (kem_kind peer i k h' is_kem' p' cpub' cpriv' opub' opriv' cpub_len' opub_len') (
            omega (
              arith,
              h.publen,
              h'.publen,
              qs_len key i k h is_kem p cpub cpriv opub opriv cpub_len opub_len,
              qs_len peer i k h' is_kem' p' cpub' cpriv' opub' opriv' cpub_len' opub_len',
              opub_len,
              opub_len',
            ))

    -- The peer's key with some header before the share, and liboqs' component behind `n` bytes.
    abbrev with_share : Bytes → ℕ → OqsxKey Pkey
    with_share header n = record (material peer i p' cpub' cpriv' opub' opriv') {
      privkey = none;
      pubkey = some (header ++ share);
      comp_pubkey = at_offset size_of_uint32 ∷ at_offset (n + size_of_uint32) ∷ [];
    }

    same_length : length cpub' ≡ length cpub
    same_length = cpub_len' ∙ sym cpub_len

    header_kept :
        front
          (material peer i p' cpub' cpriv' opub' opriv')
          (framed cpub' (opub' ++ zeros (i.length_public_key - length cpub')))
        ≡ encode_uint32 (length cpub)
    header_kept =
        rw (kem_kind peer i k h' is_kem' p' cpub' cpriv' opub' opriv' cpub_len' opub_len')
          (take_header cpub' _ ∙ ap encode_uint32 same_length)

    -- What the peer's key is then.
    set_params-share :
        (a b : Bool)
        → set_params a b
            (material peer i p' cpub' cpriv' opub' opriv')
            (some (octet_string share))
            none
          ≡ ok (record (material peer i p' cpub cpriv' opub opriv') { privkey = none }, true)
    set_params-share a b =
        set_params-taken (material peer i p' cpub' cpriv' opub' opriv') _ share
          (material-IsFilled peer i k h' is_kem' p' cpub' cpriv' opub' opriv' cpub_len' opub_len') a
          b share-length
        ∙ ap (λ header. ok (with_share header (length cpub'), true)) header_kept
        ∙ ap (λ n. ok (with_share (encode_uint32 (length cpub)) n, true)) same_length

    -- A key share of hybrid KEM keys: the encoded public key of one key with all its material is set on another
    -- such key of the same algorithm, encapsulation to that one succeeds, and decapsulation with the first
    -- key delivers the two secrets of the sender, the classical one first, when OpenSSL and liboqs agree on
    -- both secrets, the classical public keys have their full length, and the buffers have room.
    pub hyb_decaps-share :
        (seed : ℕ) (to eph q sender : Pkey) (ceph c1 s0 s1 : Bytes)
        → Sent evp oqs i k cpub opub seed to eph ceph c1 s0 s1
        → Received evp oqs i k (classical_bytes evp oqs i cpriv opriv) opriv q sender ceph c1 s0 s1
        → (ct secret answer : Bytes) → i.length_public_key + k.length_ciphertext ≤ length ct
        → i.kex_length_secret + k.length_shared_secret ≤ length secret
        → i.kex_length_secret + k.length_shared_secret ≤ length answer
        → (pubkey_ok propq_ok : Bool)
        → (encoded_public_key (material key i p cpub cpriv opub opriv) >>= λ encoded.
            set_params pubkey_ok propq_ok
              (material peer i p' cpub' cpriv' opub' opriv')
              (some (octet_string encoded))
              none
            >>= λ taken.
                hyb_encaps evp oqs
                  (some taken.0)
                  (record { ctlen = 0; secretlen = 0; ct = some ct; secret = some secret })
                  seed
                >>= λ e.
                    hyb_decaps evp oqs
                      (some (material key i p cpub cpriv opub opriv))
                      (record { secretlen = 0; secret = some answer })
                      e.0.ct
                      e.0.ctlen)
          ≡ ok (
            record {
              secretlen = i.kex_length_secret + k.length_shared_secret;
              secret = some (s0 ++ (s1 ++ drop (length s1) (drop (length s0) answer)));
            },
            success,
          )
    hyb_decaps-share seed to eph q sender ceph c1 s0 s1 sent received ct secret answer ct_room
          secret_room other_room a b =
        rw (encoded_public_key-material key i k h is_kem p cpub cpriv opub opriv cpub_len opub_len)
          (rw (set_params-share a b) (
            rw
              (
                hyb_encaps-privkey evp oqs (material peer i p' cpub cpriv' opub opriv') none _ seed,
                hyb_encaps-sent evp oqs peer i k h' is_kem' p' cpub cpriv' opub opriv' cpub_len
                    opub_len seed to eph ceph c1 s0 s1 sent ct secret ct_room secret_room 0 0,
              )
              (hyb_decaps-received evp oqs key i k h is_kem p cpub cpriv opub opriv opriv_len q
                sender ceph c1 s0 s1 (drop (length c1) (drop (length ceph) ct)) received answer
                other_room 0)))
