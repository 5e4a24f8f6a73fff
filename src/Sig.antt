-- ===== src/Sig.antt =====
-- oqsprov/oqs_sig.c: signing and verifying with a key, oqs_sig_sign and oqs_sig_verify.
pub mod Bounds
pub mod Buffers
pub mod Plain
pub mod Context
pub mod RoundTrip
pub mod Sound
use oqs_provider.Base.{
  ℕ, ◌+◌, ◌-◌, ◌^◌, ◌==◌, Bool, true, false, ◌||◌, ◌&&◌, not, Option, none, some, if◌then◌else◌,
  get_elem?, leb, ltb, length, [],
}
use oqs_provider.Run.{
  Run, ok, err, ub, Reason, no_private_key, buffer_length_wrong, fatal, signing_failed,
  wrong_parameters, verify_error, ◌>>=◌, ◌>>◌, ensure,
}
use oqs_provider.Memory.{
  is_null, Bytes, Slot, null, at_offset, unset, size_of_uint32, read, write, encode_uint32,
  decode_uint32,
}
use oqs_provider.Extern.{EvpType, evp_rsa, OqsSig, Digest, sha256, sha384, sha512, Evp, Oqs}
use oqs_provider.Key.{EvpInfo, as_sig, OqsxKey, deref, read_slot}

abbrev pub or_raise {ℓ} : {A : Type ℓ} → Reason → Option A → Run A
or_raise e none = err e
or_raise e (some a) = ok a

-- A message of `n` bytes at a pointer, which may be null where `n` is 0.
unfoldable pub message : Option Bytes → ℕ → Run Bytes
message (some buf) n = read buf 0 n
message none n = if n == 0 then ok [] else ub

-- The digest of a level that NIST claims.
unfoldable pub classical_md : ℕ → Digest
classical_md level =
    if level == 1 then sha256 else if level == 2 || level == 3 then sha384 else sha512

-- A difference of two values of type `size_t`.
unfoldable pub size_sub : ℕ → ℕ → ℕ
size_sub a b = if leb b a then a - b else a + 2 ^ 64 - b

module _ (evp : Evp) (oqs : Oqs) where
  open evp use {Pkey}

  -- PKCS #1 padding, for RSA alone.
  abbrev pub padded : EvpInfo → Pkey → Bool
  padded i p = elim i.keytype [ evp_rsa ↦ evp.rsa_padding p | _ ↦ true ]

  -- The longest signature, which a call without a buffer asks for.
  unfoldable pub max_sig_len : OqsxKey Pkey → OqsSig → Run ℕ
  max_sig_len key s = elim key.classical_pkey [
    | none ↦ ok s.length_signature
    | some _ ↦ do
      i ← deref key.evp_info
      ok (s.length_signature + (size_of_uint32 + i.length_signature))
  ]

  -- The classical signature of the hashed message behind a header with its length. It is written
  -- before its length is looked at.
  unfoldable pub sign_classical :
      OqsxKey Pkey → OqsSig → Pkey → (tbs buf : Bytes) → (seed : ℕ) → Run (Bytes × ℕ)
  sign_classical key s p tbs buf seed = do
    ensure (evp.sign_ctx p) fatal
    i ← deref key.evp_info
    ensure (padded i p) fatal
    let md = classical_md s.claimed_nist_level
    sig ← or_raise fatal (evp.sign p md (evp.hash md tbs) i.length_signature seed)
    buf' ← write buf size_of_uint32 sig
    ensure (leb (length sig) i.length_signature) buffer_length_wrong
    buf'' ← write buf' 0 (encode_uint32 (length sig))
    ok (buf'', size_of_uint32 + length sig)

  -- liboqs' signature of the message itself, at `index`.
  unfoldable pub sign_oqs :
      OqsxKey Pkey → OqsSig → (tbs buf : Bytes) → (index seed : ℕ) → Run (Bytes × ℕ)
  sign_oqs key s tbs buf index seed = do
    priv ← read_slot key.privkey (get_elem? key.comp_privkey (key.numkeys - 1)) s.length_secret_key
    sig ← or_raise signing_failed (oqs.sign s tbs priv seed)
    buf' ← write buf index sig
    ok (buf', index + length sig)

  unfoldable pub sign_into :
      OqsxKey Pkey → OqsSig → (tbs buf : Bytes) → (seed : ℕ) → Run (Bytes × ℕ)
  unfolding sign_classical sign_oqs
  sign_into key s tbs buf seed = elim key.classical_pkey [
    | none ↦ sign_oqs key s tbs buf 0 seed
    | some p ↦ do made ← sign_classical key s p tbs buf seed; sign_oqs key s tbs made.0 made.1 seed
  ]

  -- The buffer, if there is one, and the length.
  sign_or_measure :
      OqsxKey Pkey
      → OqsSig
      → Option Bytes
      → (siglen max : ℕ) → Option Bytes
      → (tbslen seed : ℕ) → Run (Option Bytes × ℕ)
  unfolding sign_into
  sign_or_measure key s none siglen max tbs tbslen seed = ok (none, max)
  sign_or_measure key s (some buf) siglen max tbs tbslen seed = do
    ensure (leb max siglen) buffer_length_wrong
    msg ← message tbs tbslen
    made ← sign_into key s msg buf seed
    ok (some made.0, made.1)

  -- oqs_sig_sign: the room is `*siglen`, not `sigsize`. What stands in the buffer after a failure is
  -- not told of.
  unfoldable pub sign :
      Option (OqsxKey Pkey)
      → (sig : Option Bytes) → (siglen sigsize : ℕ) → (tbs : Option Bytes) → (tbslen seed : ℕ)
      → Run (Option Bytes × ℕ)
  unfolding sign_or_measure
  sign sig_key sig siglen sigsize tbs tbslen seed = do
    key ← deref sig_key
    s ← as_sig key.qs_ctx
    ensure (not (is_null key.privkey)) no_private_key
    max ← max_sig_len key s
    sign_or_measure key s sig siglen max tbs tbslen seed

  -- The classical part of a signature; the length in its header is not compared with `siglen`.
  unfoldable pub verify_classical : OqsxKey Pkey → OqsSig → Pkey → (sig tbs : Bytes) → Run ℕ
  verify_classical key s p sig tbs = do
    ensure (evp.verify_ctx p) verify_error
    i ← deref key.evp_info
    ensure (padded i p) wrong_parameters
    len ← decode_uint32 sig
    let md = classical_md s.claimed_nist_level
    classical ← read sig size_of_uint32 len
    ensure (evp.verify p md (evp.hash md tbs) classical) verify_error
    ok (size_of_uint32 + len)

  -- Where the liboqs part begins.
  unfoldable pub verify_first : OqsxKey Pkey → OqsSig → (sig tbs : Bytes) → Run ℕ
  unfolding verify_classical
  verify_first key s sig tbs = elim key.classical_pkey [
    | none ↦ ok 0
    | some p ↦ verify_classical key s p sig tbs
  ]

  -- A component pointer that is compared with null.
  abbrev is_set : Option Slot → Run Bool
  is_set (some null) = ok false
  is_set (some (at_offset off)) = ok true
  is_set _ = ub

  unfoldable pub verify_oqs :
      OqsxKey Pkey → OqsSig → (sig tbs : Bytes) → (siglen index : ℕ) → Run (Unit {0})
  verify_oqs key s sig tbs siglen index = do
    set ← is_set (get_elem? key.comp_pubkey (key.numkeys - 1))
    ensure set wrong_parameters
    pub_bytes ←
        read_slot key.pubkey (get_elem? key.comp_pubkey (key.numkeys - 1)) s.length_public_key
    rest ← read sig index (size_sub siglen index)
    ensure (oqs.verify s tbs rest pub_bytes) verify_error

  -- oqs_sig_verify: `ok` for its return value 1.
  unfoldable pub verify :
      Option (OqsxKey Pkey)
      → (sig : Option Bytes) → (siglen : ℕ) → (tbs : Option Bytes) → (tbslen : ℕ) → Run (Unit {0})
  unfolding verify_first verify_oqs
  verify sig_key sig siglen tbs tbslen = do
    key ← deref sig_key
    s ← as_sig key.qs_ctx
    ensure (not (is_null key.pubkey || is_null sig || (is_null tbs && ltb 0 tbslen)))
        wrong_parameters
    buf ← deref sig
    msg ← message tbs tbslen
    index ← verify_first key s buf msg
    verify_oqs key s buf msg siglen index
