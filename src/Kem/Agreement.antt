-- ===== src/Kem/Agreement.antt =====
-- Hybrid decapsulation: both halves agree with what encapsulation made, and a ciphertext of another
-- length is refused.
use oqs_provider.Base.{
  equal, unequal, ℕ, ◌+◌, ◌-◌, ◌≤◌, ◌≡◌, ◌≢◌, refl, sym, Option, none, some, [], ◌++◌, arith,
  length, drop, take, length-append, length-drop, length-replicate,
}
use oqs_provider.Run.{ok, ◌>>=◌}
use oqs_provider.Memory.{Bytes, size_of_uint32, read, encode_uint32}
use oqs_provider.Memory.Laws.{write_front, write_behind, read_at, read_within, length-encode_uint32}
use oqs_provider.Extern.{OqsKem, Evp, Oqs}
use oqs_provider.Key.{EvpInfo, OqsxKey, kem_ctx}
use oqs_provider.Key.Shape.{IsHybrid}
use oqs_provider.Key.Layout.{zeros, framed, read_second}
use oqs_provider.Key.Material.{material}
use oqs_provider.Kem.{
  success, negative, qs_decaps_keyslot, hyb_encaps, qs_decaps_into, evp_decaps_keyslot,
  evp_decaps_into, hyb_decaps, hyb_decaps_into, private_from,
}
use oqs_provider.Kem.Hybrid.{Sent, hyb_encaps-sent}

module _ (evp : Evp) (oqs : Oqs) where
  open evp use {Pkey}

  -- OpenSSL reads the key `q` from the bytes at the classical component, as many as the longest key
  -- has, and it agrees with the sender's key on `s0`; liboqs finds the secret `s1` in `c1`.
  pub record Received (i : EvpInfo) (k : OqsKem) (enc opriv : Bytes) (q sender : Pkey)
      (ceph c1 s0 s1 : Bytes) : Type 0 where
    pub opened : private_from evp oqs i enc ≡ some q
    pub is_sender : evp.set1_encoded_public_key i.keytype i.nid ceph ≡ some sender
    pub agreed : evp.derive q sender i.kex_length_secret ≡ some s0
    pub disclosed : oqs.decaps k c1 opriv ≡ some s1
    pub length_ceph : length ceph ≡ i.length_public_key
    pub length_c1 : length c1 ≡ k.length_ciphertext
    pub length_s0 : length s0 ≡ i.kex_length_secret
    pub length_s1 : length s1 ≡ k.length_shared_secret

  -- The bytes that the classical private key is read from.
  abbrev pub classical_bytes : EvpInfo → (cpriv opriv : Bytes) → Bytes
  classical_bytes i cpriv opriv =
      take i.length_private_key (cpriv ++ (opriv ++ zeros (i.length_private_key - length cpriv)))

  module _ (key : OqsxKey Pkey) (i : EvpInfo) (k : OqsKem) (h : IsHybrid key i)
      (is_kem : key.qs_ctx ≡ kem_ctx k) (p : Pkey) (cpub cpriv opub opriv : Bytes)
      (opriv_len : length opriv ≡ k.length_secret_key) where
    abbrev full : OqsxKey Pkey
    full = material key i p cpub cpriv opub opriv

    module _ (q sender : Pkey) (ceph c1 s0 s1 rest : Bytes)
        (received : Received i k (classical_bytes i cpriv opriv) opriv q sender ceph c1 s0 s1)
        (secret : Bytes)
        (secret_room : i.kex_length_secret + k.length_shared_secret ≤ length secret) where
      read_classical :
          read
            (framed cpriv (opriv ++ zeros (i.length_private_key - length cpriv)))
            size_of_uint32
            i.length_private_key
          ≡ ok (classical_bytes i cpriv opriv)
      read_classical =
          read_within (encode_uint32 (length cpriv))
            (cpriv ++ (opriv ++ zeros (i.length_private_key - length cpriv))) size_of_uint32
            i.length_private_key (sym (length-encode_uint32 (length cpriv)))
            (omega (
              arith,
              length-append cpriv (opriv ++ zeros (i.length_private_key - length cpriv)),
              length-append opriv (zeros (i.length_private_key - length cpriv)),
              length-replicate {A = ℕ} (i.length_private_key - length cpriv) 0,
            ))

      evp_decaps-received :
          (n : ℕ)
          → evp_decaps_keyslot evp oqs
              (some full)
              (record { secretlen = n; secret = some secret })
              0
              (some (ceph ++ (c1 ++ rest)))
              0
              0
            ≡ ok (
              record {
                secretlen = i.kex_length_secret;
                secret = some (s0 ++ drop (length s0) secret);
              },
              success,
            )
      unfolding evp_decaps_keyslot evp_decaps_into
      evp_decaps-received n = rw (h.info) (
          rw (read_classical) (
            rw
              (
                received.opened,
                read_at [] ceph (c1 ++ rest) 0 i.length_public_key refl (sym received.length_ceph),
              )
              (rw (
                received.is_sender,
                received.agreed,
                write_front secret s0 (omega (arith, secret_room, received.length_s0)),
              ))))

      qs_decaps-received :
          (n : ℕ)
          → qs_decaps_keyslot evp oqs
              (some full)
              (record { secretlen = n; secret = some (s0 ++ drop (length s0) secret) })
              i.kex_length_secret
              (some (ceph ++ (c1 ++ rest)))
              i.length_public_key
              1
            ≡ ok (
              record {
                secretlen = k.length_shared_secret;
                secret = some (s0 ++ (s1 ++ drop (length s1) (drop (length s0) secret)));
              },
              success,
            )
      unfolding qs_decaps_keyslot qs_decaps_into
      qs_decaps-received n = rw (is_kem) (
          rw
            (
              read_at ceph c1 rest i.length_public_key k.length_ciphertext
                  (sym received.length_ceph) (sym received.length_c1),
              read_second cpriv opriv (zeros (i.length_private_key - length cpriv))
                  k.length_secret_key (sym opriv_len),
            )
            (rw (
              received.disclosed,
              write_behind s0 (drop (length s0) secret) s1 i.kex_length_secret
                  (sym received.length_s0)
                  (omega (
                    arith,
                    secret_room,
                    received.length_s0,
                    received.length_s1,
                    length-drop (length s0) secret,
                  )),
            )))

      evp_decaps-lengths :
          evp_decaps_keyslot evp oqs
            (some full)
            (record { secretlen = 0; secret = none })
            0
            none
            0
            0
          ≡ ok (record { secretlen = i.kex_length_secret; secret = none }, success)
      unfolding evp_decaps_keyslot evp_decaps_into
      evp_decaps-lengths = rw (h.info)

      qs_decaps-lengths :
          qs_decaps_keyslot evp oqs (some full) (record { secretlen = 0; secret = none }) 0 none 0 1
          ≡ ok (record { secretlen = k.length_shared_secret; secret = none }, success)
      unfolding qs_decaps_keyslot qs_decaps_into
      qs_decaps-lengths = rw (is_kem)

      pub hyb_decaps-received :
          (n : ℕ)
          → hyb_decaps evp oqs
              (some full)
              (record { secretlen = n; secret = some secret })
              (some (ceph ++ (c1 ++ rest)))
              (i.length_public_key + k.length_ciphertext)
            ≡ ok (
              record {
                secretlen = i.kex_length_secret + k.length_shared_secret;
                secret = some (s0 ++ (s1 ++ drop (length s1) (drop (length s0) secret)));
              },
              success,
            )
      unfolding hyb_decaps hyb_decaps_into
      hyb_decaps-received n = rw (evp_decaps-lengths) (
          rw (qs_decaps-lengths) (
            rw (h.info) (
              rw
                (
                  ← h.info,
                  is_kem,
                  equal (i.length_public_key + k.length_ciphertext)
                      (i.length_public_key + k.length_ciphertext) refl,
                )
                (rw (← is_kem, evp_decaps-received (i.kex_length_secret + k.length_shared_secret))
                  (rw (qs_decaps-received (i.kex_length_secret + k.length_shared_secret)))))))

  -- Hybrid decapsulation into a buffer, of a ciphertext whose length is not that of the classical public
  -- key and liboqs' ciphertext together, is refused with the status -1: the buffer is not written,
  -- whatever the ciphertext holds.
  pub hyb_decaps-wrong_length :
      (key : OqsxKey Pkey) (i : EvpInfo) (k : OqsKem) (ct : Option Bytes) (secret : Bytes)
      (n ctlen : ℕ)
      → key.evp_info ≡ some i
      → key.qs_ctx ≡ kem_ctx k
      → ctlen ≢ i.length_public_key + k.length_ciphertext
      → hyb_decaps evp oqs (some key) (record { secretlen = n; secret = some secret }) ct ctlen
        ≡ ok (
          record { secretlen = i.kex_length_secret + k.length_shared_secret; secret = some secret },
          negative 1,
        )
  unfolding hyb_decaps hyb_decaps_into evp_decaps_keyslot qs_decaps_keyslot evp_decaps_into
      qs_decaps_into
  hyb_decaps-wrong_length key i k ct secret n ctlen info is_kem wrong =
      rw (info) (
        rw (is_kem, unequal (i.length_public_key + k.length_ciphertext) ctlen (λ e. wrong (sym e))))

  module _ (key : OqsxKey Pkey) (i : EvpInfo) (k : OqsKem) (h : IsHybrid key i)
      (is_kem : key.qs_ctx ≡ kem_ctx k) (p : Pkey) (cpub cpriv opub opriv : Bytes)
      (cpub_len : length cpub ≡ i.length_public_key) (opub_len : length opub ≡ k.length_public_key)
      (opriv_len : length opriv ≡ k.length_secret_key) where
    -- Decapsulation of what hybrid encapsulation to the same key wrote, when OpenSSL and liboqs agree on
    -- both secrets and the buffers have room, succeeds and delivers the two secrets of the sender, the
    -- classical one first, and touches nothing behind them.
    pub hyb_decaps-hyb_encaps :
        (seed : ℕ) (peer eph q sender : Pkey) (ceph c1 s0 s1 : Bytes)
        → Sent evp oqs i k cpub opub seed peer eph ceph c1 s0 s1
        → Received i k (classical_bytes i cpriv opriv) opriv q sender ceph c1 s0 s1
        → (ct secret other : Bytes) → i.length_public_key + k.length_ciphertext ≤ length ct
        → i.kex_length_secret + k.length_shared_secret ≤ length secret
        → i.kex_length_secret + k.length_shared_secret ≤ length other
        → (hyb_encaps evp oqs
              (some (material key i p cpub cpriv opub opriv))
              (record { ctlen = 0; secretlen = 0; ct = some ct; secret = some secret })
              seed
            >>= λ e.
                hyb_decaps evp oqs
                  (some (material key i p cpub cpriv opub opriv))
                  (record { secretlen = 0; secret = some other })
                  e.0.ct
                  e.0.ctlen)
          ≡ ok (
            record {
              secretlen = i.kex_length_secret + k.length_shared_secret;
              secret = some (s0 ++ (s1 ++ drop (length s1) (drop (length s0) other)));
            },
            success,
          )
    hyb_decaps-hyb_encaps seed peer eph q sender ceph c1 s0 s1 sent received ct secret other ct_room
          secret_room other_room =
        rw
          (hyb_encaps-sent evp oqs key i k h is_kem p cpub cpriv opub opriv cpub_len opub_len seed
            peer eph ceph c1 s0 s1 sent ct secret ct_room secret_room 0 0)
          (hyb_decaps-received key i k h is_kem p cpub cpriv opub opriv opriv_len q sender ceph c1
            s0 s1 (drop (length c1) (drop (length ceph) ct)) received other other_room 0)
