-- ===== src/Kem/Hybrid.antt =====
-- The hybrid KEM: what encapsulation writes, and that decapsulation takes it apart again.
use oqs_provider.Base.{
  refl, Option, equal, ℕ, ◌+◌, ◌-◌, ◌≤◌, ◌≡◌, sym, none, some, ◌++◌, arith, length, drop,
  length-drop,
}
use oqs_provider.Run.{ok}
use oqs_provider.Memory.{Bytes}
use oqs_provider.Memory.Laws.{write_front, write_behind}
use oqs_provider.Extern.{OqsKem, Evp, Oqs}
use oqs_provider.Key.{EvpInfo, OqsxKey, kem_ctx}
use oqs_provider.Key.Shape.{IsHybrid}
use oqs_provider.Key.Layout.{zeros, read_first, read_second}
use oqs_provider.Key.Material.{material}
use oqs_provider.Kem.{
  Encaps, success, qs_encaps_keyslot, evp_encaps_keyslot, evp_encaps_into, qs_encaps_into,
  hyb_encaps, hyb_encaps_into,
}

module _ (evp : Evp) (oqs : Oqs) where
  open evp use {Pkey}

  -- OpenSSL makes a key pair whose public half is encoded as `ceph` and agrees with the peer on `s0`;
  -- liboqs makes the ciphertext `c1` of the secret `s1`; the lengths are those that are told of.
  pub record Sent (i : EvpInfo) (k : OqsKem) (cpub opub : Bytes) (seed : ℕ) (peer eph : Pkey)
      (ceph c1 s0 s1 : Bytes) : Type 0 where
    pub is_peer : evp.set1_encoded_public_key i.keytype i.nid cpub ≡ some peer
    pub made : evp.keygen i.keytype i.nid seed ≡ some eph
    pub agreed : evp.derive eph peer i.kex_length_secret ≡ some s0
    pub encoded : evp.get1_encoded_public_key eph ≡ some ceph
    pub enclosed : oqs.encaps k opub seed ≡ some (c1, s1)
    pub length_ceph : length ceph ≡ i.length_public_key
    pub length_s0 : length s0 ≡ i.kex_length_secret
    pub length_c1 : length c1 ≡ k.length_ciphertext
    pub length_s1 : length s1 ≡ k.length_shared_secret

  module _ (key : OqsxKey Pkey) (i : EvpInfo) (k : OqsKem) (h : IsHybrid key i)
      (is_kem : key.qs_ctx ≡ kem_ctx k) (p : Pkey) (cpub cpriv opub opriv : Bytes)
      (cpub_len : length cpub ≡ i.length_public_key)
      (opub_len : length opub ≡ k.length_public_key) where
    abbrev full : OqsxKey Pkey
    full = material key i p cpub cpriv opub opriv

    module _ (seed : ℕ) (peer eph : Pkey) (ceph c1 s0 s1 : Bytes)
        (sent : Sent i k cpub opub seed peer eph ceph c1 s0 s1) (ct secret : Bytes)
        (ct_room : i.length_public_key + k.length_ciphertext ≤ length ct)
        (secret_room : i.kex_length_secret + k.length_shared_secret ≤ length secret) where
      evp_encaps-sent :
          (n m : ℕ)
          → evp_encaps_keyslot evp oqs
              (some full)
              (record { ctlen = n; secretlen = m; ct = some ct; secret = some secret })
              0
              0
              0
              seed
            ≡ ok (
              record {
                ctlen = i.length_public_key;
                secretlen = i.kex_length_secret;
                ct = some (ceph ++ drop (length ceph) ct);
                secret = some (s0 ++ drop (length s0) secret);
              },
              success,
            )
      unfolding evp_encaps_keyslot evp_encaps_into
      evp_encaps-sent n m = rw (h.info) (
          rw
            (read_first cpub (opub ++ zeros (i.length_public_key - length cpub)) i.length_public_key
              (sym cpub_len))
            (rw (
              sent.is_peer,
              sent.made,
              sent.agreed,
              write_front secret s0 fits_secret,
              sent.encoded,
              equal (length ceph) i.length_public_key sent.length_ceph,
              write_front ct ceph fits_ct,
            )))
        where
          fits_secret : length s0 ≤ length secret
          fits_secret = omega (arith, secret_room, sent.length_s0)

          fits_ct : length ceph ≤ length ct
          fits_ct = omega (arith, ct_room, sent.length_ceph)

      qs_encaps-sent :
          (n m : ℕ)
          → qs_encaps_keyslot evp oqs
              (some full)
              (record {
                ctlen = n;
                secretlen = m;
                ct = some (ceph ++ drop (length ceph) ct);
                secret = some (s0 ++ drop (length s0) secret);
              })
              i.length_public_key
              i.kex_length_secret
              1
              seed
            ≡ ok (
              record {
                ctlen = k.length_ciphertext;
                secretlen = k.length_shared_secret;
                ct = some (ceph ++ (c1 ++ drop (length c1) (drop (length ceph) ct)));
                secret = some (s0 ++ (s1 ++ drop (length s1) (drop (length s0) secret)));
              },
              success,
            )
      unfolding qs_encaps_keyslot qs_encaps_into
      qs_encaps-sent n m = rw (is_kem) (
          rw
            (read_second cpub opub (zeros (i.length_public_key - length cpub)) k.length_public_key
              (sym opub_len))
            (rw (
              sent.enclosed,
              write_behind ceph (drop (length ceph) ct) c1 i.length_public_key
                  (sym sent.length_ceph) fits_ct,
              write_behind s0 (drop (length s0) secret) s1 i.kex_length_secret (sym sent.length_s0)
                  fits_secret,
            )))
        where
          fits_secret : length s1 ≤ length (drop (length s0) secret)
          fits_secret =
              omega
                (arith, secret_room, sent.length_s0, sent.length_s1, length-drop (length s0) secret)

          fits_ct : length c1 ≤ length (drop (length ceph) ct)
          fits_ct =
              omega (arith, ct_room, sent.length_ceph, sent.length_c1, length-drop (length ceph) ct)

      evp_encaps-lengths :
          evp_encaps_keyslot evp oqs
            (some full)
            (record { ctlen = 0; secretlen = 0; ct = none; secret = none })
            0
            0
            0
            seed
          ≡ ok (
            record {
              ctlen = i.length_public_key;
              secretlen = i.kex_length_secret;
              ct = none;
              secret = none;
            },
            success,
          )
      unfolding evp_encaps_keyslot evp_encaps_into
      evp_encaps-lengths = rw (h.info)

      qs_encaps-lengths :
          qs_encaps_keyslot evp oqs
            (some full)
            (record { ctlen = 0; secretlen = 0; ct = none; secret = none })
            0
            0
            1
            seed
          ≡ ok (
            record {
              ctlen = k.length_ciphertext;
              secretlen = k.length_shared_secret;
              ct = none;
              secret = none;
            },
            success,
          )
      unfolding qs_encaps_keyslot qs_encaps_into
      qs_encaps-lengths = rw (is_kem)

      -- Hybrid encapsulation into buffers with room, when OpenSSL and liboqs deliver what they tell of, succeeds:
      -- it tells the joint sizes, writes the classical ciphertext and liboqs' one behind it, likewise the
      -- two secrets, and leaves what stands behind them.
      pub hyb_encaps-sent :
          (n m : ℕ)
          → hyb_encaps evp oqs
              (some full)
              (record { ctlen = n; secretlen = m; ct = some ct; secret = some secret })
              seed
            ≡ ok (
              record {
                ctlen = i.length_public_key + k.length_ciphertext;
                secretlen = i.kex_length_secret + k.length_shared_secret;
                ct = some (ceph ++ (c1 ++ drop (length c1) (drop (length ceph) ct)));
                secret = some (s0 ++ (s1 ++ drop (length s1) (drop (length s0) secret)));
              },
              success,
            )
      unfolding hyb_encaps hyb_encaps_into
      hyb_encaps-sent n m = rw (evp_encaps-lengths) (
          rw (qs_encaps-lengths) (
            rw
              (evp_encaps-sent (i.length_public_key + k.length_ciphertext)
                (i.kex_length_secret + k.length_shared_secret))
              (rw (
                qs_encaps-sent (i.length_public_key + k.length_ciphertext)
                  (i.kex_length_secret + k.length_shared_secret)))))

-- Encapsulation does not look at the private key.
pub hyb_encaps-privkey :
    (evp : Evp) (oqs : Oqs) (key : OqsxKey evp.Pkey) (private : Option Bytes) (io : Encaps)
    (seed : ℕ)
    → hyb_encaps evp oqs (some (record key { privkey = private })) io seed
      ≡ hyb_encaps evp oqs (some key) io seed
unfolding hyb_encaps hyb_encaps_into evp_encaps_keyslot evp_encaps_into qs_encaps_keyslot
    qs_encaps_into
hyb_encaps-privkey evp oqs key private io seed = refl
