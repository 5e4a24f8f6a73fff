-- ===== src/Sig/Plain.antt =====
-- Signing and verifying with a key of liboqs alone.
use oqs_provider.Base.{ℕ, ◌+◌, ◌≤◌, ◌≡◌, refl, sym, ap, none, some, length, arith, drop, ◌++◌, []}
use oqs_provider.Run.{ok, ◌>>=◌}
use oqs_provider.Memory.{Bytes}
use oqs_provider.Memory.Laws.{read_rest, read_at, write_front, le→leb}
use oqs_provider.Extern.{OqsSig, Evp, Oqs}
use oqs_provider.Key.{OqsxKey, sig_ctx}
use oqs_provider.Key.Shape.{IsPlain}
use oqs_provider.Key.Material.{plain_material}
use oqs_provider.Sig.{
  sign, sign_into, sign_oqs, sign_or_measure, max_sig_len, verify, verify_first, verify_oqs,
  size_sub,
}
use oqs_provider.Sig.RoundTrip.{OqsSigns, message_all}

size_sub-zero : (a : ℕ) → size_sub a 0 ≡ a
unfolding size_sub
size_sub-zero a = ground arith

module _ (evp : Evp) (oqs : Oqs) where
  open evp use {Pkey}

  module _ (key : OqsxKey Pkey) (s : OqsSig) (h : IsPlain key) (is_sig : key.qs_ctx ≡ sig_ctx s)
      (no_classical : key.classical_pkey ≡ none) (opub opriv : Bytes)
      (opub_len : length opub ≡ s.length_public_key)
      (opriv_len : length opriv ≡ s.length_secret_key) (msg : Bytes) (seed : ℕ) (o : Bytes)
      (quantum : OqsSigns evp oqs s opub opriv msg seed o) (buf : Bytes)
      (room : s.length_signature ≤ length buf) where
    abbrev full : OqsxKey Pkey
    full = plain_material key opub opriv

    sign_oqs-plain :
        sign_oqs evp oqs full s msg buf 0 seed ≡ ok (o ++ drop (length o) buf, length o)
    unfolding sign_oqs
    sign_oqs-plain = rw (h.one) (
        rw (read_rest [] opriv 0 s.length_secret_key refl (sym opriv_len)) (
          rw (quantum.signed) (
            rw (write_front buf o (omega (arith, room, quantum.fits)))
              (ap (λ n. ok (o ++ drop (length o) buf, n)) from_start))))
      where
        from_start : 0 + length o ≡ length o
        from_start = omega arith

    sign_into-plain :
        sign_into evp oqs full s msg buf seed ≡ ok (o ++ drop (length o) buf, length o)
    unfolding sign_into
    sign_into-plain = simp (no_classical) (sign_oqs-plain)

    max_sig_len-plain : max_sig_len evp oqs full s ≡ ok s.length_signature
    unfolding max_sig_len
    max_sig_len-plain = simp (no_classical)

    -- Signing with a key of liboqs alone, when liboqs signs and the room is at least the longest signature,
    -- succeeds: the buffer begins with the signature and keeps what stood behind it, and the size of the
    -- signature is told.
    pub sign-plain :
        (siglen sigsize : ℕ)
        → s.length_signature ≤ siglen
        → sign evp oqs (some full) (some buf) siglen sigsize (some msg) (length msg) seed
          ≡ ok (some (o ++ drop (length o) buf), length o)
    unfolding sign sign_or_measure max_sig_len
    sign-plain siglen sigsize enough =
        simp (is_sig)
          (rw (max_sig_len-plain) (rw (le→leb _ _ enough, message_all msg) (rw (sign_into-plain))))

    verify_first-plain : verify_first evp oqs full s (o ++ drop (length o) buf) msg ≡ ok 0
    unfolding verify_first
    verify_first-plain = simp (no_classical)

    verify_oqs-plain : verify_oqs evp oqs full s (o ++ drop (length o) buf) msg (length o) 0 ≡ ok tt
    unfolding verify_oqs
    verify_oqs-plain = rw (h.one) (
        rw
          (
            read_rest [] opub 0 s.length_public_key refl (sym opub_len),
            size_sub-zero (length o),
            read_at [] o (drop (length o) buf) 0 (length o) refl refl,
          )
          (rw (quantum.verifies)))

    verify-plain :
        verify evp oqs
          (some full)
          (some (o ++ drop (length o) buf))
          (length o)
          (some msg)
          (length msg)
        ≡ ok tt
    unfolding verify
    verify-plain =
        simp (is_sig) (rw (message_all msg) (rw (verify_first-plain) (rw (verify_oqs-plain))))

    -- With a key of liboqs alone, when liboqs signs the message and its signature verifies, signing into a
    -- buffer with room for the longest signature succeeds, and verifying that buffer with the size that
    -- signing told succeeds.
    pub verify-sign_plain :
        (siglen sigsize : ℕ)
        → s.length_signature ≤ siglen
        → (sign evp oqs
              (some (plain_material key opub opriv))
              (some buf)
              siglen
              sigsize
              (some msg)
              (length msg)
              seed
            >>= λ r.
                verify evp oqs
                  (some (plain_material key opub opriv))
                  r.0
                  r.1
                  (some msg)
                  (length msg))
          ≡ ok tt
    verify-sign_plain siglen sigsize enough = rw (sign-plain siglen sigsize enough) verify-plain
