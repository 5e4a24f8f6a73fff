-- ===== src/Kem.antt =====
-- oqsprov/oqs_kem.c: encapsulation and decapsulation, of liboqs alone, of the classical half, and of
-- both. The buffers of the caller go in and out; a null pointer is `none`.
pub mod Hybrid
pub mod Agreement
pub mod Plain
use oqs_provider.Base.{
  ℕ, ◌+◌, ◌==◌, Bool, true, false, ◌||◌, Option, none, some, if◌then◌else◌, get_elem?, length,
}
use oqs_provider.Run.{Run, ok, ub, ◌>>=◌}
use oqs_provider.Memory.{is_null, Bytes, read, write}
use oqs_provider.Extern.{Evp, Oqs}
use oqs_provider.Key.{EvpInfo, as_kem, OqsxKey, deref, read_slot}

-- The `int` that is returned: 1, 0, and minus the number.
pub data Status : Type 0 where
  success failure : Status
  negative : ℕ → Status

-- `*ctlen`, `*secretlen` and the two buffers.
pub record Encaps : Type 0 where
  pub ctlen : ℕ
  pub secretlen : ℕ
  pub ct : Option Bytes
  pub secret : Option Bytes

pub record Decaps : Type 0 where
  pub secretlen : ℕ
  pub secret : Option Bytes

-- Locals that are 0 and no buffers, for the calls that ask for lengths.
abbrev pub encaps_query : Encaps
encaps_query = record { ctlen = 0; secretlen = 0; ct = none; secret = none }

abbrev pub decaps_query : Decaps
decaps_query = record { secretlen = 0; secret = none }

-- A call that returned null or an error code ends the function with `r`.
abbrev pub attempt :
    {S A : Type 0} → S → Status → Option A → (A → Run (S × Status)) → Run (S × Status)
attempt s r none f = ok (s, r)
attempt s r (some a) f = f a

-- ON_ERR_SET_GOTO(ret <= 0, ret, OQS_ERROR, err)
abbrev pub on_success : {S : Type 0} → S → Status → Run (S × Status) → Run (S × Status)
on_success s success k = k
on_success s failure k = ok (s, negative 1)
on_success s (negative n) k = ok (s, negative 1)

module _ (evp : Evp) (oqs : Oqs) where
  open evp use {Pkey}

  qs_encaps_into :
      OqsxKey Pkey
      → Encaps
      → (ct_off secret_off slot seed : ℕ) → Option Bytes
      → Option Bytes
      → Run (Encaps × Status)
  qs_encaps_into key io ct_off secret_off slot seed (some ct) (some secret) = do
    k ← as_kem key.qs_ctx
    enc ← read_slot key.pubkey (get_elem? key.comp_pubkey slot) k.length_public_key
    attempt io failure (oqs.encaps k enc seed) λ pair. do
      ct' ← write ct ct_off pair.0
      secret' ← write secret secret_off pair.1
      ok (record io { ct = some ct'; secret = some secret' }, success)
  qs_encaps_into key io ct_off secret_off slot seed _ _ = ok (io, success)

  -- oqs_qs_kem_encaps_keyslot, with where its buffers start in the caller's. The KEM of an unset key
  -- is read before the key is looked at.
  unfoldable pub qs_encaps_keyslot :
      Option (OqsxKey Pkey) → Encaps → (ct_off secret_off slot seed : ℕ) → Run (Encaps × Status)
  unfolding qs_encaps_into
  qs_encaps_keyslot kem io ct_off secret_off slot seed = do
    key ← deref kem
    k ← as_kem key.qs_ctx
    qs_encaps_into key
        (record io { ctlen = k.length_ciphertext; secretlen = k.length_shared_secret }) ct_off
        secret_off slot seed io.ct io.secret

  qs_decaps_into :
      OqsxKey Pkey
      → Decaps
      → (secret_off : ℕ) → Option Bytes
      → (ct_off slot : ℕ) → Option Bytes
      → Run (Decaps × Status)
  qs_decaps_into key io secret_off ct ct_off slot none = ok (io, success)
  qs_decaps_into key io secret_off ct ct_off slot (some secret) = do
    k ← as_kem key.qs_ctx
    buf ← deref ct
    bytes ← read buf ct_off k.length_ciphertext
    enc ← read_slot key.privkey (get_elem? key.comp_privkey slot) k.length_secret_key
    attempt io failure (oqs.decaps k bytes enc) λ s. do
      secret' ← write secret secret_off s
      ok (record io { secret = some secret' }, success)

  -- oqs_qs_kem_decaps_keyslot, which does not look at the length of the ciphertext.
  unfoldable pub qs_decaps_keyslot :
      Option (OqsxKey Pkey)
      → Decaps
      → (secret_off : ℕ) → Option Bytes
      → (ct_off slot : ℕ) → Run (Decaps × Status)
  unfolding qs_decaps_into
  qs_decaps_keyslot kem io secret_off ct ct_off slot = do
    key ← deref kem
    k ← as_kem key.qs_ctx
    qs_decaps_into key (record io { secretlen = k.length_shared_secret }) secret_off ct ct_off slot
        io.secret

  -- oqs_qs_kem_encaps and oqs_qs_kem_decaps
  unfoldable pub qs_encaps : Option (OqsxKey Pkey) → Encaps → (seed : ℕ) → Run (Encaps × Status)
  qs_encaps kem io seed = qs_encaps_keyslot kem io 0 0 0 seed

  unfoldable pub qs_decaps :
      Option (OqsxKey Pkey) → Decaps → Option Bytes → (ctlen : ℕ) → Run (Decaps × Status)
  qs_decaps kem io ct ctlen = qs_decaps_keyslot kem io 0 ct 0 0

  evp_encaps_into :
      OqsxKey Pkey
      → EvpInfo
      → Encaps
      → (ct_off secret_off slot seed : ℕ) → Option Bytes
      → Option Bytes
      → Run (Encaps × Status)
  evp_encaps_into key i io ct_off secret_off slot seed (some ct) (some secret) = do
    enc ← read_slot key.pubkey (get_elem? key.comp_pubkey slot) i.length_public_key
    attempt io (negative 1) (evp.set1_encoded_public_key i.keytype i.nid enc) λ peer.
        attempt io (negative 1) (evp.keygen i.keytype i.nid seed) λ p.
          attempt io (negative 1) (evp.derive p peer i.kex_length_secret) λ s. do
            secret' ← write secret secret_off s
            let io' = record io { secret = some secret' }
            attempt io' (negative 1) (evp.get1_encoded_public_key p) λ enc'.
                if length enc' == i.length_public_key
                then (do ct' ← write ct ct_off enc'; ok (record io' { ct = some ct' }, success))
                else ok (io', negative 1)
  evp_encaps_into key i io ct_off secret_off slot seed _ _ = ok (io, success)

  -- oqs_evp_kem_encaps_keyslot: the ciphertext is the public key of a fresh pair.
  unfoldable pub evp_encaps_keyslot :
      Option (OqsxKey Pkey) → Encaps → (ct_off secret_off slot seed : ℕ) → Run (Encaps × Status)
  unfolding evp_encaps_into
  evp_encaps_keyslot kem io ct_off secret_off slot seed = do
    key ← deref kem
    i ← deref key.evp_info
    evp_encaps_into key i
        (record io { ctlen = i.length_public_key; secretlen = i.kex_length_secret }) ct_off
        secret_off slot seed io.ct io.secret

  -- The private key from the bytes at the component, as many as the longest key has.
  abbrev pub private_from : EvpInfo → Bytes → Option Pkey
  private_from i enc =
      if i.raw_key_support
      then evp.new_raw_private_key i.keytype enc
      else evp.d2i_auto_private_key enc

  evp_decaps_into :
      OqsxKey Pkey
      → EvpInfo
      → Decaps
      → (secret_off : ℕ) → Option Bytes
      → (ct_off slot : ℕ) → Option Bytes
      → Run (Decaps × Status)
  evp_decaps_into key i io secret_off ct ct_off slot none = ok (io, success)
  evp_decaps_into key i io secret_off ct ct_off slot (some secret) = do
    enc ← read_slot key.privkey (get_elem? key.comp_privkey slot) i.length_private_key
    attempt io (if i.raw_key_support then negative 10 else negative 2) (private_from i enc) λ p. do
      buf ← deref ct
      bytes ← read buf ct_off i.length_public_key
      attempt io (negative 5) (evp.set1_encoded_public_key i.keytype i.nid bytes) λ peer.
          attempt io (negative 9) (evp.derive p peer i.kex_length_secret) λ s. do
            secret' ← write secret secret_off s
            ok (record io { secret = some secret' }, success)

  -- oqs_evp_kem_decaps_keyslot
  unfoldable pub evp_decaps_keyslot :
      Option (OqsxKey Pkey)
      → Decaps
      → (secret_off : ℕ) → Option Bytes
      → (ct_off slot : ℕ) → Run (Decaps × Status)
  unfolding evp_decaps_into
  evp_decaps_keyslot kem io secret_off ct ct_off slot = do
    key ← deref kem
    i ← deref key.evp_info
    evp_decaps_into key i (record io { secretlen = i.kex_length_secret }) secret_off ct ct_off slot
        io.secret

  -- What a call on local lengths leaves in the caller's buffers.
  abbrev keep_lengths : Encaps → Encaps → Encaps
  keep_lengths io made = record io { ct = made.ct; secret = made.secret }

  hyb_encaps_into :
      Option (OqsxKey Pkey) → Encaps → (ctlen0 secretlen0 seed : ℕ) → Run (Encaps × Status)
  hyb_encaps_into kem io ctlen0 secretlen0 seed =
      if is_null io.ct || is_null io.secret then ok (io, success) else do
        e0 ← evp_encaps_keyslot kem io 0 0 0 seed
        let io0 = keep_lengths io e0.0
        on_success io0 e0.1 (do
          e1 ← qs_encaps_keyslot kem io0 ctlen0 secretlen0 1 seed
          let io1 = keep_lengths io0 e1.0
          on_success io1 e1.1 (ok (io1, success)))

  -- oqs_hyb_kem_encaps: the classical ciphertext and secret, and liboqs' behind them.
  unfoldable pub hyb_encaps : Option (OqsxKey Pkey) → Encaps → (seed : ℕ) → Run (Encaps × Status)
  unfolding hyb_encaps_into
  hyb_encaps kem io seed = do
    q0 ← evp_encaps_keyslot kem encaps_query 0 0 0 seed
    on_success io q0.1 (do
      q1 ← qs_encaps_keyslot kem encaps_query 0 0 1 seed
      on_success io q1.1 (
          hyb_encaps_into kem
            (record io {
              ctlen = q0.0.ctlen + q1.0.ctlen;
              secretlen = q0.0.secretlen + q1.0.secretlen;
            })
            q0.0.ctlen q0.0.secretlen seed))

  hyb_decaps_into :
      OqsxKey Pkey
      → EvpInfo
      → Decaps
      → Option Bytes
      → (ctlen secretlen0 : ℕ) → Run (Decaps × Status)
  hyb_decaps_into key i io ct ctlen secretlen0 = if is_null io.secret then ok (io, success) else do
    k ← as_kem key.qs_ctx
    if i.length_public_key + k.length_ciphertext == ctlen
        then (do
          d0 ← evp_decaps_keyslot (some key) io 0 ct 0 0
          let io0 = record io { secret = d0.0.secret }
          on_success io0 d0.1 (do
            d1 ← qs_decaps_keyslot (some key) io0 secretlen0 ct i.length_public_key 1
            let io1 = record io0 { secret = d1.0.secret }
            on_success io1 d1.1 (ok (io1, success))))
        else ok (io, negative 1)

  -- oqs_hyb_kem_decaps
  unfoldable pub hyb_decaps :
      Option (OqsxKey Pkey) → Decaps → Option Bytes → (ctlen : ℕ) → Run (Decaps × Status)
  unfolding hyb_decaps_into
  hyb_decaps kem io ct ctlen = do
    key ← deref kem
    q0 ← evp_decaps_keyslot kem decaps_query 0 none 0 0
    on_success io q0.1 (do
      q1 ← qs_decaps_keyslot kem decaps_query 0 none 0 1
      on_success io q1.1 (do
        i ← deref key.evp_info
        hyb_decaps_into key i (record io { secretlen = q0.0.secretlen + q1.0.secretlen }) ct ctlen
            q0.0.secretlen))
