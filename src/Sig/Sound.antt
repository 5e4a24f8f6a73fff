-- ===== src/Sig/Sound.antt =====
-- What an accepted hybrid signature is made of.
use oqs_provider.Base.{
  Bool-cases, inl, inr, ℕ, ◌+◌, ◌-◌, ◌≡◌, refl, true, false, ◌||◌, ◌&&◌, not, Option, some,
  get_elem?, ltb,
}
use oqs_provider.Run.{
  ensure-true, ok, Post, Post-bind, Post-chain, Post_ok, ensure, verify_error, wrong_parameters,
}
use oqs_provider.Memory.{is_null, Bytes, size_of_uint32, read, decode_uint32}
use oqs_provider.Extern.{OqsSig, Evp, Oqs}
use oqs_provider.Key.{OqsxKey, sig_ctx, read_slot, deref}
use oqs_provider.Sig.{
  verify, verify_first, verify_classical, verify_oqs, is_set, message, padded, classical_md,
  size_sub,
}

module _ (evp : Evp) (oqs : Oqs) where
  open evp use {Pkey}

  -- The header tells the length of a classical signature of the hashed message, that verifies; what is
  -- left of `siglen` bytes is liboqs' signature of the message, that verifies under the last public key.
  pub record Accepted (key : OqsxKey Pkey) (s : OqsSig) (p : Pkey) (sig : Bytes) (siglen : ℕ)
      (tbs : Option Bytes) (tbslen : ℕ) : Type 0 where
    pub n : ℕ
    pub msg : Bytes
    pub classical : Bytes
    pub rest : Bytes
    pub public : Bytes
    pub told : message tbs tbslen ≡ ok msg
    pub header : decode_uint32 sig ≡ ok n
    pub first : read sig size_of_uint32 n ≡ ok classical
    pub classical_verifies :
        evp.verify p
          (classical_md s.claimed_nist_level)
          (evp.hash (classical_md s.claimed_nist_level) msg)
          classical
        ≡ true
    pub second : read sig (size_of_uint32 + n) (size_sub siglen (size_of_uint32 + n)) ≡ ok rest
    pub component :
        read_slot key.pubkey (get_elem? key.comp_pubkey (key.numkeys - 1)) s.length_public_key
        ≡ ok public
    pub oqs_verifies : oqs.verify s msg rest public ≡ true

  module _ (key : OqsxKey Pkey) (s : OqsSig) (p : Pkey) (sig : Bytes) where
    -- The classical half of that, with the index it ends at.
    record AcceptedClassical (msg : Bytes) (index : ℕ) : Type 0 where
      n : ℕ
      classical : Bytes
      header : decode_uint32 sig ≡ ok n
      first : read sig size_of_uint32 n ≡ ok classical
      verifies :
          evp.verify p
            (classical_md s.claimed_nist_level)
            (evp.hash (classical_md s.claimed_nist_level) msg)
            classical
          ≡ true
      ends : index ≡ size_of_uint32 + n

    verify_classical-Accepted :
        (msg : Bytes) → Post (AcceptedClassical msg) (verify_classical evp oqs key s p sig msg)
    unfolding verify_classical
    verify_classical-Accepted msg = Post-bind _ (ensure (evp.verify_ctx p) verify_error) _ λ u _.
        Post-bind _ (deref key.evp_info) _ λ i _.
          Post-bind _ (ensure (padded evp oqs i p) wrong_parameters) _ λ u _.
            Post-bind _ (decode_uint32 sig) _ λ n header.
              let md = classical_md s.claimed_nist_level in
              Post-bind _ (read sig size_of_uint32 n) _ λ classical first.
                Post-bind _ (ensure (evp.verify p md (evp.hash md msg) classical) verify_error) _
                  λ u good. record {
                    n = n;
                    classical = classical;
                    header = header;
                    first = first;
                    verifies = ensure-true _ _ good;
                    ends = refl;
                  }

    verify_first-Accepted :
        (msg : Bytes)
        → key.classical_pkey ≡ some p
        → Post (AcceptedClassical msg) (verify_first evp oqs key s sig msg)
    unfolding verify_first
    verify_first-Accepted msg is_hybrid =
        simp (is_hybrid, verify_first) (verify_classical-Accepted msg)

    module _ (siglen : ℕ) (tbs : Option Bytes) (tbslen : ℕ) where
      verify_oqs-Accepted :
          (msg : Bytes) (index : ℕ)
          → message tbs tbslen ≡ ok msg
          → AcceptedClassical msg index
          → Post
              (λ u. Accepted key s p sig siglen tbs tbslen)
              (verify_oqs evp oqs key s sig msg siglen index)
      unfolding verify_oqs
      verify_oqs-Accepted msg index told first_part = rw (first_part.ends) (
          Post-bind _ (is_set evp oqs (get_elem? key.comp_pubkey (key.numkeys - 1))) _ λ set _.
            Post-bind _ (ensure set wrong_parameters) _ λ u _.
              Post-bind _
                (read_slot key.pubkey (get_elem? key.comp_pubkey (key.numkeys - 1))
                  s.length_public_key)
                _
                λ public component.
                  Post-bind _
                    (read sig (size_of_uint32 + first_part.n)
                      (size_sub siglen (size_of_uint32 + first_part.n)))
                    _ λ rest second. accepted public component rest second)
        where
          accepted :
              (public : Bytes)
              → read_slot key.pubkey
                  (get_elem? key.comp_pubkey (key.numkeys - 1))
                  s.length_public_key
                ≡ ok public
              → (rest : Bytes)
              → read sig
                  (size_of_uint32 + first_part.n)
                  (size_sub siglen (size_of_uint32 + first_part.n))
                ≡ ok rest
              → Post
                  (λ u. Accepted key s p sig siglen tbs tbslen)
                  (ensure (oqs.verify s msg rest public) verify_error)
          accepted public component rest second = elim (Bool-cases (oqs.verify s msg rest public)) [
            | inl good ↦ rw (good) (record {
              n = first_part.n;
              msg = msg;
              classical = first_part.classical;
              rest = rest;
              public = public;
              told = told;
              header = first_part.header;
              first = first_part.first;
              classical_verifies = first_part.verifies;
              second = second;
              component = component;
              oqs_verifies = good;
            })
            | inr bad ↦ rw (bad) tt
          ]

      verify-Accepted :
          key.qs_ctx ≡ sig_ctx s
          → key.classical_pkey ≡ some p
          → Post
              (λ u. Accepted key s p sig siglen tbs tbslen)
              (verify evp oqs (some key) (some sig) siglen tbs tbslen)
      unfolding verify
      verify-Accepted is_sig is_hybrid = simp (is_sig) (
          Post-bind _
            (ensure (not (is_null key.pubkey || false || (is_null tbs && ltb 0 tbslen)))
              wrong_parameters)
            _
            λ u _. Post-bind _ (message tbs tbslen) _ λ msg told.
              Post-chain _ _ (verify_first evp oqs key s sig msg) _
                (verify_first-Accepted msg is_hybrid)
                (λ index first_part. verify_oqs-Accepted msg index told first_part))

      -- A signature that is accepted with a hybrid key has both parts: the header tells the length of a classical
      -- signature that OpenSSL accepts for the hashed message, and what follows it is a signature that
      -- liboqs accepts for the message under the key's last public key.
      pub verify-both :
          key.qs_ctx ≡ sig_ctx s
          → key.classical_pkey ≡ some p
          → verify evp oqs (some key) (some sig) siglen tbs tbslen ≡ ok tt
          → Accepted key s p sig siglen tbs tbslen
      verify-both is_sig is_hybrid accepted =
          Post_ok (λ u. Accepted key s p sig siglen tbs tbslen)
            (verify evp oqs (some key) (some sig) siglen tbs tbslen)
            (verify-Accepted is_sig is_hybrid) accepted
