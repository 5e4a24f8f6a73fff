-- ===== src/Kem/Plain.antt =====
-- The KEM of liboqs alone: decapsulation finds the secret that encapsulation delivered.
use oqs_provider.Base.{ℕ, ◌≤◌, ◌≡◌, refl, sym, some, [], ◌++◌, arith, length, drop}
use oqs_provider.Run.{ok, ◌>>=◌}
use oqs_provider.Memory.{Bytes}
use oqs_provider.Memory.Laws.{write_front, read_at, read_rest}
use oqs_provider.Extern.{OqsKem, Evp, Oqs}
use oqs_provider.Key.{OqsxKey, kem_ctx}
use oqs_provider.Key.Material.{plain_material}
use oqs_provider.Kem.{
  success, qs_encaps, qs_decaps, qs_encaps_keyslot, qs_decaps_keyslot, qs_encaps_into,
  qs_decaps_into,
}

module _ (evp : Evp) (oqs : Oqs) where
  open evp use {Pkey}

  module _ (key : OqsxKey Pkey) (k : OqsKem) (is_kem : key.qs_ctx ≡ kem_ctx k) (opub opriv : Bytes)
      (opub_len : length opub ≡ k.length_public_key)
      (opriv_len : length opriv ≡ k.length_secret_key) (seed : ℕ) (c s : Bytes)
      (enclosed : oqs.encaps k opub seed ≡ some (c, s)) (disclosed : oqs.decaps k c opriv ≡ some s)
      (length_c : length c ≡ k.length_ciphertext)
      (length_s : length s ≡ k.length_shared_secret) where
    abbrev full : OqsxKey Pkey
    full = plain_material key opub opriv

    -- Encapsulation with a key of liboqs alone, into buffers with room, when liboqs delivers what it tells of,
    -- succeeds: it tells the two sizes, writes the ciphertext and the secret and leaves what stands behind
    -- them.
    pub qs_encaps-plain :
        (ct secret : Bytes)
        → k.length_ciphertext ≤ length ct
        → k.length_shared_secret ≤ length secret
        → (n m : ℕ)
        → qs_encaps evp oqs
            (some full)
            (record { ctlen = n; secretlen = m; ct = some ct; secret = some secret })
            seed
          ≡ ok (
            record {
              ctlen = k.length_ciphertext;
              secretlen = k.length_shared_secret;
              ct = some (c ++ drop (length c) ct);
              secret = some (s ++ drop (length s) secret);
            },
            success,
          )
    unfolding qs_encaps qs_encaps_keyslot qs_encaps_into
    qs_encaps-plain ct secret ct_room secret_room n m = rw (is_kem) (
        rw (read_rest [] opub 0 k.length_public_key refl (sym opub_len)) (
          rw (
            enclosed,
            write_front ct c (omega (arith, ct_room, length_c)),
            write_front secret s (omega (arith, secret_room, length_s)),
          )))

    qs_decaps-plain :
        (rest other : Bytes)
        → k.length_shared_secret ≤ length other
        → (n ctlen : ℕ)
        → qs_decaps evp oqs
            (some full)
            (record { secretlen = n; secret = some other })
            (some (c ++ rest))
            ctlen
          ≡ ok (
            record {
              secretlen = k.length_shared_secret;
              secret = some (s ++ drop (length s) other);
            },
            success,
          )
    unfolding qs_decaps qs_decaps_keyslot qs_decaps_into
    qs_decaps-plain rest other room n ctlen = rw (is_kem) (
        rw
          (
            read_at [] c rest 0 k.length_ciphertext refl (sym length_c),
            read_rest [] opriv 0 k.length_secret_key refl (sym opriv_len),
          )
          (rw (disclosed, write_front other s (omega (arith, room, length_s)))))

    -- Decapsulation of what encapsulation with a key of liboqs alone wrote, when liboqs finds the secret
    -- that it enclosed and the buffers have room, succeeds and delivers that secret, and touches nothing
    -- behind it.
    pub qs_decaps-qs_encaps :
        (ct secret other : Bytes)
        → k.length_ciphertext ≤ length ct
        → k.length_shared_secret ≤ length secret
        → k.length_shared_secret ≤ length other
        → (qs_encaps evp oqs
              (some (plain_material key opub opriv))
              (record { ctlen = 0; secretlen = 0; ct = some ct; secret = some secret })
              seed
            >>= λ e.
                qs_decaps evp oqs
                  (some (plain_material key opub opriv))
                  (record { secretlen = 0; secret = some other })
                  e.0.ct
                  e.0.ctlen)
          ≡ ok (
            record {
              secretlen = k.length_shared_secret;
              secret = some (s ++ drop (length s) other);
            },
            success,
          )
    qs_decaps-qs_encaps ct secret other ct_room secret_room other_room =
        rw (qs_encaps-plain ct secret ct_room secret_room 0 0)
          (qs_decaps-plain (drop (length c) ct) other other_room 0 k.length_ciphertext)
