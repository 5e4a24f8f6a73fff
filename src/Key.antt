-- ===== src/Key.antt =====
-- oqsprov/oqsprov_keys.c and oqsprov/oqs_prov.h: the key object and its operations, in the default
-- build (no NOPUBKEY_IN_PRIVKEY, no USE_ENCODING_LIB).

pub mod Layout
pub mod Lengths
pub mod Shape
pub mod Material
pub mod Gen
pub mod New
pub mod Decode
pub mod References
use Prim.Native.String.{String}
use oqs_provider.Base.{
  ℕ, ◌+◌, ◌%◌, ◌^◌, ◌==◌, Bool, true, false, Option, none, some, List, [], ◌∷◌, if◌then◌else◌,
  replicate,
}
use oqs_provider.Run.{Run, ok, ub, ◌>>=◌}
use oqs_provider.Memory.{
  Bytes, Slot, null, at_offset, detached, size_of_uint32, read, write, decode_uint32, int_to_size,
}
use oqs_provider.Extern.{EvpType, EvpNid, OqsSig, OqsKem, privkey_site, pubkey_site, Alloc}

-- `other` is an `int` that is none of the five.
pub data KeyType : Type 0 where
  sig kem ecp_hyb_kem ecx_hyb_kem hyb_sig other : KeyType

pub record EvpInfo : Type 0 where
  pub keytype : EvpType
  pub nid : EvpNid
  pub raw_key_support : Bool
  pub length_public_key : ℕ
  pub length_private_key : ℕ
  pub kex_length_secret : ℕ
  pub length_signature : ℕ

-- The union of an `OQS_SIG *` and an `OQS_KEM *`.
pub data QsCtx : Type 0 where
  sig_ctx : OqsSig → QsCtx
  kem_ctx : OqsKem → QsCtx

-- A member that was not stored is not read.
abbrev pub as_sig : QsCtx → Run OqsSig
as_sig (sig_ctx s) = ok s
as_sig (kem_ctx k) = ub

abbrev pub as_kem : QsCtx → Run OqsKem
as_kem (sig_ctx s) = ub
as_kem (kem_ctx k) = ok k

-- `oqsx_evp_ctx`, if there is one, has the key's own `evp_info`.
pub record OqsxKey (Pkey : Type 0) : Type 0 where
  pub keytype : KeyType
  pub qs_ctx : QsCtx
  pub classical_pkey : Option Pkey
  pub evp_info : Option EvpInfo
  pub numkeys : ℕ
  pub privkeylen : ℕ
  pub pubkeylen : ℕ
  pub bit_security : ℕ
  pub tls_name : String
  pub propq : Option String
  pub references : ℕ
  pub comp_privkey : List Slot
  pub comp_pubkey : List Slot
  pub privkey : Option Bytes
  pub pubkey : Option Bytes

-- A field that is read through a pointer that may be null.
abbrev pub deref {ℓ} : {A : Type ℓ} → Option A → Run A
deref none = ub
deref (some a) = ok a

-- The two components of a hybrid key's buffer: behind the header, and behind the classical key
-- whose length the header holds. Pointers are added modulo 2 ^ 64.
abbrev pub components : Option Bytes → Run (List Slot)
components none = ok (null ∷ null ∷ [])
components (some buf) = do
  n ← decode_uint32 buf
  ok (at_offset size_of_uint32 ∷ at_offset ((int_to_size n + size_of_uint32) % 2 ^ 64) ∷ [])

abbrev pub whole : Option Bytes → List Slot
whole none = null ∷ []
whole (some buf) = at_offset 0 ∷ []

-- The bytes that a component pointer is used for.
abbrev pub read_slot : Option Bytes → Option Slot → ℕ → Run Bytes
read_slot (some buf) (some (at_offset off)) n = read buf off n
read_slot _ (some (detached block)) n = read block 0 n
read_slot _ _ n = ub

-- What is written through a component of the key's buffer; no code writes a block of its own this way.
abbrev pub write_slot : Option Bytes → Option Slot → Bytes → Run Bytes
write_slot (some buf) (some (at_offset off)) bs = write buf off bs
write_slot _ _ bs = ub

module _ {Pkey : Type 0} where
  -- oqsx_key_set_composites, which never returns 0.
  unfoldable pub set_composites : OqsxKey Pkey → Run (OqsxKey Pkey)
  set_composites key =
      if key.numkeys == 1
      then ok (record key { comp_privkey = whole key.privkey; comp_pubkey = whole key.pubkey })
      else do
        privs ← components key.privkey
        pubs ← components key.pubkey
        ok (record key { comp_privkey = privs; comp_pubkey = pubs })

  -- oqsx_key_allocate_keymaterial: `true` for its return value 1, an allocation that failed.
  unfoldable pub allocate_keymaterial :
      Alloc → OqsxKey Pkey → (include_private : Bool) → OqsxKey Pkey × Bool
  allocate_keymaterial alloc key true = elim key.privkey [
    | some _ ↦ (key, false)
    | none ↦
        if alloc privkey_site
        then (record key { privkey = some (replicate key.privkeylen 0) }, false)
        else (key, true)
  ]
  allocate_keymaterial alloc key false = elim key.pubkey [
    | some _ ↦ (key, false)
    | none ↦
        if alloc pubkey_site
        then (record key { pubkey = some (replicate key.pubkeylen 0) }, false)
        else (key, true)
  ]

  -- oqsx_key_maxsize: 0 for a wrong key type.
  unfoldable pub maxsize : OqsxKey Pkey → Run ℕ
  maxsize key = elim key.keytype [
    | kem ↦ do k ← as_kem key.qs_ctx; ok k.length_shared_secret
    | ecp_hyb_kem ↦ do
      info ← deref key.evp_info
      k ← as_kem key.qs_ctx
      ok (info.kex_length_secret + k.length_shared_secret)
    | ecx_hyb_kem ↦ do
      info ← deref key.evp_info
      k ← as_kem key.qs_ctx
      ok (info.kex_length_secret + k.length_shared_secret)
    | sig ↦ do s ← as_sig key.qs_ctx; ok s.length_signature
    | hyb_sig ↦ do
      s ← as_sig key.qs_ctx
      info ← deref key.evp_info
      ok (s.length_signature + info.length_signature + size_of_uint32)
    | other ↦ ok 0
  ]

  -- oqsx_key_get_oqs_public_key_len: `none` for the -1 of a wrong key type.
  unfoldable pub get_oqs_public_key_len : OqsxKey Pkey → Run (Option ℕ)
  get_oqs_public_key_len key = elim key.keytype [
    | sig ↦ ok (some key.pubkeylen)
    | kem ↦ ok (some key.pubkeylen)
    | hyb_sig ↦ do s ← as_sig key.qs_ctx; ok (some s.length_public_key)
    | ecx_hyb_kem ↦ do k ← as_kem key.qs_ctx; ok (some k.length_public_key)
    | ecp_hyb_kem ↦ do k ← as_kem key.qs_ctx; ok (some k.length_public_key)
    | other ↦ ok none
  ]
