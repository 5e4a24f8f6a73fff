-- ===== src/Sig/Bounds.antt =====
-- The size of what oqs_sig_sign writes.
use oqs_provider.Base.{
  ◌≢◌, ℕ, ◌+◌, ◌-◌, ◌≤◌, ◌≡◌, refl, sym, ◌∙◌, not, Option, none, some, leb, length, arith, leb→le,
  get_elem?,
}
use oqs_provider.Run.{
  ensure-true, Post-chain, Post-map, ok_injective, Reason, Post_ok, fatal, no_private_key, ok, ub,
  Post, Post-bind, ensure, buffer_length_wrong,
}
use oqs_provider.Memory.{Bytes, size_of_uint32, write, encode_uint32}
use oqs_provider.Memory.Laws.{length-write}
use oqs_provider.Extern.{OqsSig, Evp, Oqs}
use oqs_provider.Key.{OqsxKey, sig_ctx, read_slot, EvpInfo}
use oqs_provider.Memory.{is_null}
use oqs_provider.Sig.{
  sign, sign_into, sign_oqs, sign_classical, sign_or_measure, max_sig_len, message, or_raise,
  padded, classical_md,
}

or_raise_ok {ℓ} :
    {A : Type ℓ} (e : Reason) (o : Option A) {a : A} → or_raise e o ≡ ok a → o ≡ some a
or_raise_ok e none h = absurd cc
or_raise_ok e (some b) h = cc

-- What is known of a buffer that was written.
length_written :
    (buf bs : Bytes) (off : ℕ) {buf' : Bytes}
    → write buf off bs ≡ ok buf'
    → length buf' ≡ length buf
length_written buf bs off h =
    Post_ok (λ b. length b ≡ length buf) (write buf off bs) (length-write buf bs off) h

ub_not_ok : {n : ℕ} → ub ≢ ok n
ub_not_ok h = cc

-- A buffer of that size.
abbrev pub HasLength : ℕ → Option Bytes → Type 0
HasLength n none = ⊥
HasLength n (some buf) = length buf ≡ n

module _ (evp : Evp) (oqs : Oqs) where
  open evp use {Pkey}

  -- liboqs' signatures are no longer than it tells.
  abbrev pub IsBounded : OqsSig → Type 0
  IsBounded s =
      (msg priv sig : Bytes) (seed : ℕ)
      → oqs.sign s msg priv seed ≡ some sig
      → length sig ≤ s.length_signature

  module _ (key : OqsxKey Pkey) (s : OqsSig) (bounded : IsBounded s) where
    sign_oqs-bounded :
        (tbs buf : Bytes) (index seed : ℕ)
        → Post
            (λ r. (r.1 ≤ index + s.length_signature) × (length r.0 ≡ length buf))
            (sign_oqs evp oqs key s tbs buf index seed)
    unfolding sign_oqs
    sign_oqs-bounded tbs buf index seed =
        Post-bind _
          (read_slot key.privkey (get_elem? key.comp_privkey (key.numkeys - 1)) s.length_secret_key)
          _
          λ priv _. Post-bind _ (or_raise _ (oqs.sign s tbs priv seed)) _ λ sig made.
            Post-bind _ (write buf index sig) _ λ buf' wrote. (
              omega (arith, bounded tbs priv sig seed (or_raise_ok _ _ made)),
              length_written buf sig index wrote,
            )

    sign_classical-bounded :
        (i : EvpInfo) (p : Pkey) (tbs buf : Bytes) (seed : ℕ)
        → key.evp_info ≡ some i
        → Post
            (λ r. (r.1 ≤ size_of_uint32 + i.length_signature) × (length r.0 ≡ length buf))
            (sign_classical evp oqs key s p tbs buf seed)
    unfolding sign_classical
    sign_classical-bounded i p tbs buf seed info = rw (info) (
        Post-bind _ (ensure (evp.sign_ctx p) fatal) _ λ u _.
          Post-bind _ (ensure (padded evp oqs i p) fatal) _ λ u _.
            let md = classical_md s.claimed_nist_level in
            Post-bind _ (or_raise fatal (evp.sign p md (evp.hash md tbs) i.length_signature seed)) _
              λ sig _. Post-bind _ (write buf size_of_uint32 sig) _ λ buf' first.
                Post-bind _ (ensure (leb (length sig) i.length_signature) buffer_length_wrong) _
                  λ u fits.
                    Post-bind _ (write buf' 0 (encode_uint32 (length sig))) _ λ buf'' second. (
                      omega (arith, leb→le _ _ (ensure-true _ _ fits)),
                      length_written buf' (encode_uint32 (length sig)) 0 second
                          ∙ length_written buf sig size_of_uint32 first,
                    ))

    plain_max : key.classical_pkey ≡ none → max_sig_len evp oqs key s ≡ ok s.length_signature
    unfolding max_sig_len
    plain_max e = simp (e, max_sig_len)

    hybrid_max :
        {p : Pkey} {i : EvpInfo}
        → key.classical_pkey ≡ some p
        → key.evp_info ≡ some i
        → max_sig_len evp oqs key s
          ≡ ok (s.length_signature + (size_of_uint32 + i.length_signature))
    unfolding max_sig_len
    hybrid_max e h = simp (e, h, max_sig_len)

    no_max :
        {p : Pkey}
        → key.classical_pkey ≡ some p
        → key.evp_info ≡ none
        → max_sig_len evp oqs key s ≡ ub
    unfolding max_sig_len
    no_max e h = simp (e, h, max_sig_len)

    sign_into-bounded :
        (tbs buf : Bytes) (seed max : ℕ)
        → max_sig_len evp oqs key s ≡ ok max
        → Post (λ r. (r.1 ≤ max) × (length r.0 ≡ length buf)) (sign_into evp oqs key s tbs buf seed)
    unfolding sign_into
    sign_into-bounded tbs buf seed max measured = go key.classical_pkey refl key.evp_info refl
      where
        go :
            (o : Option Pkey)
            → key.classical_pkey ≡ o
            → (info : Option EvpInfo) → key.evp_info ≡ info
            → Post
                (λ r. (r.1 ≤ max) × (length r.0 ≡ length buf))
                (sign_into evp oqs key s tbs buf seed)
        go none e info h =
            simp (e, sign_into)
              (Post-map _ _ (sign_oqs evp oqs key s tbs buf 0 seed)
                (λ r. λ bound.
                  (omega (arith, bound.0, ok_injective (sym (plain_max e) ∙ measured)), bound.1))
                (sign_oqs-bounded tbs buf 0 seed))
        go (some p) e none h = absurd (ub_not_ok (sym (no_max e h) ∙ measured))
        go (some p) e (some i) h =
            simp (e, sign_into)
              (Post-chain _ _ (sign_classical evp oqs key s p tbs buf seed) _
                (sign_classical-bounded i p tbs buf seed h)
                (λ made. λ first.
                  Post-map _ _ (sign_oqs evp oqs key s tbs made.0 made.1 seed)
                    (λ r. λ bound. (
                      omega
                          (arith, bound.0, first.0, ok_injective (sym (hybrid_max e h) ∙ measured)),
                      bound.1 ∙ first.1,
                    ))
                    (sign_oqs-bounded tbs made.0 made.1 seed)))

    -- What is signed into a buffer is no longer than `*siglen` told, whatever the key, and the buffer
    -- keeps its size, if liboqs' signatures are no longer than it tells.
    pub sign-bounded :
        (buf : Bytes) (siglen sigsize : ℕ) (tbs : Option Bytes) (tbslen seed : ℕ)
        → key.qs_ctx ≡ sig_ctx s
        → Post
            (λ r. (r.1 ≤ siglen) × HasLength (length buf) r.0)
            (sign evp oqs (some key) (some buf) siglen sigsize tbs tbslen seed)
    unfolding sign sign_or_measure
    sign-bounded buf siglen sigsize tbs tbslen seed is_sig = simp (is_sig) (
        Post-bind _ (ensure (not (is_null key.privkey)) no_private_key) _ λ u _.
          Post-bind _ (max_sig_len evp oqs key s) _ λ max measured.
            Post-bind _ (ensure (leb max siglen) buffer_length_wrong) _ λ u fits.
              Post-bind _ (message tbs tbslen) _ λ msg _.
                Post-chain _ _ (sign_into evp oqs key s msg buf seed) _
                  (sign_into-bounded msg buf seed max measured)
                  (λ made.
                    λ bound. (omega (arith, bound.0, leb→le _ _ (ensure-true _ _ fits)), bound.1)))
