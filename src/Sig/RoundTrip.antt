-- ===== src/Sig/RoundTrip.antt =====
-- A signature that is made verifies.
use oqs_provider.Base.{
  ℕ, ◌+◌, ◌-◌, ◌≤◌, ◌<◌, ◌^◌, ◌≡◌, refl, sym, true, some, length, arith, drop, ◌++◌, length-drop,
  [],
}
use oqs_provider.Run.{ok, ◌>>=◌}
use oqs_provider.Memory.{Bytes, size_of_uint32, encode_uint32}
use oqs_provider.Memory.Laws.{
  read_rest, write_inside, write_over_front, le→leb, length-encode_uint32,
}
use oqs_provider.Extern.{OqsSig, Evp, Oqs}
use oqs_provider.Key.{OqsxKey, sig_ctx, EvpInfo}
use oqs_provider.Key.Shape.{IsHybrid}
use oqs_provider.Key.Layout.{
  write_behind_first, read_behind_first, read_first, decode-framed, framed, zeros, read_second,
}
use oqs_provider.Key.Material.{material}
use oqs_provider.Sig.{
  sign, sign_into, sign_oqs, sign_classical, sign_or_measure, max_sig_len, message, padded,
  classical_md, verify, verify_first, verify_classical, verify_oqs, size_sub,
}

pub message_all : (msg : Bytes) → message (some msg) (length msg) ≡ ok msg
unfolding message
message_all msg = read_rest [] msg 0 (length msg) refl refl

size_sub-add : (a b : ℕ) → size_sub (a + b) a ≡ b
unfolding size_sub
size_sub-add a b = ground arith

module _ (evp : Evp) (oqs : Oqs) where
  open evp use {Pkey}

  -- OpenSSL signs the hashed message with the key, and the signature `c` verifies.
  pub record ClassicalSigns (i : EvpInfo) (s : OqsSig) (p : Pkey) (msg : Bytes) (seed : ℕ)
      (c : Bytes) : Type 0 where
    pub can_sign : evp.sign_ctx p ≡ true
    pub can_verify : evp.verify_ctx p ≡ true
    pub can_pad : padded evp oqs i p ≡ true
    pub signed :
        evp.sign p
          (classical_md s.claimed_nist_level)
          (evp.hash (classical_md s.claimed_nist_level) msg)
          i.length_signature
          seed
        ≡ some c
    pub verifies :
        evp.verify p
          (classical_md s.claimed_nist_level)
          (evp.hash (classical_md s.claimed_nist_level) msg)
          c
        ≡ true
    pub fits : length c ≤ i.length_signature

  -- liboqs signs the message with the private key, and the signature `o` verifies under the public
  -- key.
  pub record OqsSigns (s : OqsSig) (opub opriv msg : Bytes) (seed : ℕ) (o : Bytes) : Type 0 where
    pub signed : oqs.sign s msg opriv seed ≡ some o
    pub verifies : oqs.verify s msg o opub ≡ true
    pub fits : length o ≤ s.length_signature

  module _ (key : OqsxKey Pkey) (i : EvpInfo) (s : OqsSig) (h : IsHybrid key i)
      (is_sig : key.qs_ctx ≡ sig_ctx s) (p : Pkey) (cpub cpriv opub opriv : Bytes)
      (opub_len : length opub ≡ s.length_public_key)
      (opriv_len : length opriv ≡ s.length_secret_key) (msg : Bytes) (seed : ℕ) (c o : Bytes)
      (classical : ClassicalSigns i s p msg seed c)
      (quantum : OqsSigns s opub opriv msg seed o) where
    abbrev full : OqsxKey Pkey
    full = material key i p cpub cpriv opub opriv

    module _ (buf : Bytes)
        (room : s.length_signature + (size_of_uint32 + i.length_signature) ≤ length buf) where
      sign_classical-framed :
          sign_classical evp oqs full s p msg buf seed
          ≡ ok (framed c (drop (size_of_uint32 + length c) buf), size_of_uint32 + length c)
      unfolding sign_classical
      sign_classical-framed = rw (classical.can_sign) (
          rw (h.info) (
            rw (classical.can_pad, classical.signed)
              (rw (
                write_inside buf c size_of_uint32 (omega (arith, room, classical.fits)),
                le→leb _ _ classical.fits,
                write_over_front buf (encode_uint32 (length c))
                    (c ++ drop (size_of_uint32 + length c) buf) size_of_uint32
                    (length-encode_uint32 (length c)) (omega (arith, room)),
              ))))

      -- The buffer after signing.
      abbrev signed_buffer : Bytes
      signed_buffer = framed c (o ++ drop (length o) (drop (size_of_uint32 + length c) buf))

      sign_oqs-framed :
          sign_oqs evp oqs full s msg
            (framed c (drop (size_of_uint32 + length c) buf))
            (size_of_uint32 + length c)
            seed
          ≡ ok (signed_buffer, size_of_uint32 + length c + length o)
      unfolding sign_oqs
      sign_oqs-framed = rw (h.two) (
          rw
            (read_second cpriv opriv (zeros (i.length_private_key - length cpriv))
              s.length_secret_key (sym opriv_len))
            (rw (quantum.signed) (
              rw (
                write_behind_first c o (drop (size_of_uint32 + length c) buf)
                  (size_of_uint32 + length c) refl
                  (omega (
                    arith,
                    room,
                    classical.fits,
                    quantum.fits,
                    length-drop (size_of_uint32 + length c) buf,
                  ))))))

      sign_into-framed :
          sign_into evp oqs full s msg buf seed
          ≡ ok (signed_buffer, size_of_uint32 + length c + length o)
      unfolding sign_into
      sign_into-framed = rw (sign_classical-framed, sign_oqs-framed)

      max_sig_len-full :
          max_sig_len evp oqs full s
          ≡ ok (s.length_signature + (size_of_uint32 + i.length_signature))
      unfolding max_sig_len
      max_sig_len-full = rw (h.info)

      -- Signing with a hybrid key, when OpenSSL and liboqs sign and the room is what a call without a buffer
      -- asks for, succeeds: the buffer has the header with the length of the classical signature, that
      -- signature and liboqs' one, keeps what stood behind them, and their size is told.
      pub sign-framed :
          (siglen sigsize : ℕ)
          → s.length_signature + (size_of_uint32 + i.length_signature) ≤ siglen
          → sign evp oqs (some full) (some buf) siglen sigsize (some msg) (length msg) seed
            ≡ ok (some signed_buffer, size_of_uint32 + length c + length o)
      unfolding sign sign_or_measure max_sig_len encode_uint32
      sign-framed siglen sigsize enough =
          simp (is_sig) (
            rw (max_sig_len-full) (rw (le→leb _ _ enough, message_all msg) (rw (sign_into-framed))))

      verify_first-framed :
          length c < 2 ^ 31
          → verify_first evp oqs full s signed_buffer msg ≡ ok (size_of_uint32 + length c)
      unfolding verify_first verify_classical
      verify_first-framed small = rw (classical.can_verify) (
          rw (h.info) (
            rw (classical.can_pad, decode-framed c small)
              (rw
                (read_first c (o ++ drop (length o) (drop (size_of_uint32 + length c) buf))
                  (length c) refl)
                (rw (classical.verifies)))))

      verify_oqs-framed :
          verify_oqs evp oqs full s signed_buffer msg
            (size_of_uint32 + length c + length o)
            (size_of_uint32 + length c)
          ≡ ok tt
      unfolding verify_oqs
      verify_oqs-framed = rw (h.two) (
          rw
            (
              read_second cpub opub (zeros (i.length_public_key - length cpub)) s.length_public_key
                  (sym opub_len),
              size_sub-add (size_of_uint32 + length c) (length o),
            )
            (rw
              (read_behind_first c o (drop (length o) (drop (size_of_uint32 + length c) buf))
                (size_of_uint32 + length c) (length o) refl refl)
              (rw (quantum.verifies))))

      verify-framed :
          length c < 2 ^ 31
          → verify evp oqs
              (some full)
              (some signed_buffer)
              (size_of_uint32 + length c + length o)
              (some msg)
              (length msg)
            ≡ ok tt
      unfolding verify
      verify-framed small =
          simp (is_sig)
            (rw (message_all msg) (rw (verify_first-framed small) (rw (verify_oqs-framed))))

      -- With a hybrid key, when OpenSSL and liboqs sign the message and their signatures verify, signing into
      -- a buffer with the room that a call without a buffer asks for succeeds, and verifying that buffer
      -- with the size that signing told succeeds.
      pub verify-sign :
          (siglen sigsize : ℕ)
          → s.length_signature + (size_of_uint32 + i.length_signature) ≤ siglen
          → length c < 2 ^ 31
          → (sign evp oqs
                (some (material key i p cpub cpriv opub opriv))
                (some buf)
                siglen
                sigsize
                (some msg)
                (length msg)
                seed
              >>= λ r.
                  verify evp oqs
                    (some (material key i p cpub cpriv opub opriv))
                    r.0
                    r.1
                    (some msg)
                    (length msg))
            ≡ ok tt
      verify-sign siglen sigsize enough small =
          rw (sign-framed siglen sigsize enough) (verify-framed small)
