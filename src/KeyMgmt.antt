-- ===== src/KeyMgmt.antt =====
-- oqsprov/oqs_kmgmt.c, in the default build, and oqsx_key_fromdata of oqsprov/oqsprov_keys.c: what a
-- key has, when two keys match, export and import.
pub mod Constructors
pub mod Params
pub mod Handshake
pub mod Match
pub mod Transfer
use Prim.Native.String.{String}
use text.Mathlib.Text.{◌==◌ as str_eq}
use oqs_provider.Base.{
  ℕ, ◌-◌, ◌==◌, Bool, true, false, ◌&&◌, ◌||◌, not, Option, none, some, List, [], ◌∷◌,
  if◌then◌else◌, length,
}
use oqs_provider.Run.{
  Run, ok, err, ub, Reason, wrong_parameters, invalid_encoding, invalid_size, malloc_failure,
  silent, unexpected_null, ◌>>=◌, ◌>>◌, ensure,
}
use oqs_provider.Memory.{is_null, Bytes, read, size_of_uint32}
use oqs_provider.Extern.{Evp, Oqs, Alloc, pubkey_site, privkey_site}
use oqs_provider.Key.{OqsxKey, KeyType, ecp_hyb_kem, ecx_hyb_kem, deref, set_composites}
use oqs_provider.Key.Gen.{key_gen}
use oqs_provider.Key.Decode.{op_public, op_private, recreate_classickey}

-- The bits of an OSSL_KEYMGMT_SELECT_... mask.
pub record Selection : Type 0 where
  pub private_key : Bool
  pub public_key : Bool
  pub domain_parameters : Bool
  pub other_parameters : Bool

-- A parameter: an octet string, or one of another type.
pub data Param : Type 0 where
  octet_string : Bytes → Param
  other_type : Param

unfoldable pub same_bytes : Bytes → Bytes → Bool
same_bytes [] [] = true
same_bytes (x ∷ xs) (y ∷ ys) = (x == y) && same_bytes xs ys
same_bytes _ _ = false

-- `CRYPTO_memcmp(a, b, n) == 0`
unfoldable pub memcmp_equal : Bytes → Bytes → ℕ → Run Bool
memcmp_equal a b n = do a' ← read a 0 n; b' ← read b 0 n; ok (same_bytes a' b')

-- One is there and the other is not, or the names differ.
abbrev pub differs : Option Bytes → Option Bytes → (name1 name2 : String) → Bool
differs none (some b) name1 name2 = true
differs (some a) none name1 name2 = true
differs none none name1 name2 = not (str_eq name1 name2)
differs (some a) (some b) name1 name2 = not (str_eq name1 name2)

-- Both are there and are equal.
unfoldable pub both_equal : Option Bytes → Option Bytes → ℕ → Run Bool
both_equal (some a) (some b) n = memcmp_equal a b n
both_equal _ _ n = ok false

-- Neither is there, or the first is, and they are equal.
unfoldable pub equal_or_absent : Option Bytes → Option Bytes → ℕ → Run Bool
equal_or_absent none none n = ok true
equal_or_absent none (some b) n = ok false
equal_or_absent (some a) none n = ub
equal_or_absent (some a) (some b) n = memcmp_equal a b n

-- One of the two buffers, if there is one and it is asked for.
param_of : Option Bytes → ℕ → Run (Option Param)
param_of none n = ok none
param_of (some buf) n = do
  ensure (not (n == 0)) silent
  bytes ← read buf 0 n
  ok (some (octet_string bytes))

-- A parameter takes the place of a buffer if it has its size.
take_param : (alloc_ok : Bool) → Reason → ℕ → Option Bytes → Option Param → Run (Option Bytes)
take_param alloc_ok e n old none = ok old
take_param alloc_ok e n old (some other_type) = err e
take_param alloc_ok e n old (some (octet_string bytes)) = do
  ensure (n == length bytes) invalid_size
  ensure alloc_ok malloc_failure
  ok (some bytes)

module _ {Pkey : Type 0} where
  -- oqsx_has
  unfoldable pub has : Option (OqsxKey Pkey) → Selection → Bool
  has none selection = false
  has (some key) selection =
      (not selection.public_key || not (is_null key.pubkey))
      && (not selection.private_key || not (is_null key.privkey))

  unfoldable pub match_private : OqsxKey Pkey → OqsxKey Pkey → Run Bool
  match_private key1 key2 =
      if differs key1.privkey key2.privkey key1.tls_name key2.tls_name
      then ok false
      else equal_or_absent key1.privkey key2.privkey key1.privkeylen

  -- The private keys stand in for the public ones if the domain parameters are selected.
  unfoldable pub match_public : OqsxKey Pkey → OqsxKey Pkey → (domain before : Bool) → Run Bool
  match_public key1 key2 domain before =
      if differs key1.pubkey key2.pubkey key1.tls_name key2.tls_name
      then (if domain then both_equal key1.privkey key2.privkey key1.privkeylen else ok false)
      else (if before then equal_or_absent key1.pubkey key2.pubkey key1.pubkeylen else ok false)

  -- oqsx_match: the private keys are compared if the public ones are not asked for.
  unfoldable pub key_match : OqsxKey Pkey → OqsxKey Pkey → Selection → Run Bool
  unfolding match_private match_public
  key_match key1 key2 selection = do
    before ←
        if selection.private_key && not selection.public_key
        then match_private key1 key2
        else ok true
    if selection.public_key
        then match_public key1 key2 selection.domain_parameters before
        else ok before

  -- oqsx_key_to_params into a template, which takes what is pushed: the public key and the private one.
  unfoldable pub key_to_params :
      OqsxKey Pkey → (include_private : Bool) → Run (Option Param × Option Param)
  unfolding param_of
  key_to_params key include_private = do
    public ← param_of key.pubkey key.pubkeylen
    private ← if include_private then param_of key.privkey key.privkeylen else ok none
    ok (public, private)

  -- oqsx_export: the parameters that the callback is given.
  unfoldable pub export : OqsxKey Pkey → Selection → Run (Option Param × Option Param)
  unfolding key_to_params
  export key selection =
      if selection.public_key || selection.private_key
      then key_to_params key selection.private_key
      else ok (none, none)

  -- What oqsx_get_params gives as the encoded public key: a hybrid KEM's without the header.
  unfoldable pub encoded_public_key : OqsxKey Pkey → Run Bytes
  encoded_public_key key = elim key.keytype [
    | ecp_hyb_kem ↦ do
      buf ← deref key.pubkey
      read buf size_of_uint32 (key.pubkeylen - size_of_uint32)
    | ecx_hyb_kem ↦ do
      buf ← deref key.pubkey
      read buf size_of_uint32 (key.pubkeylen - size_of_uint32)
    | _ ↦ elim key.pubkey [ none ↦ err silent | some buf ↦ read buf 0 key.pubkeylen ]
  ]

module _ (evp : Evp) where
  open evp use {Pkey}

  -- oqsx_key_fromdata, from the public and the private parameter. What it leaves of the key where it
  -- fails is not told of.
  unfoldable pub fromdata :
      Alloc → OqsxKey Pkey → (public private : Option Param) → Run (OqsxKey Pkey)
  unfolding take_param
  fromdata alloc key public private = do
    ensure (not (is_null private && is_null public)) wrong_parameters
    priv' ← take_param (alloc privkey_site) invalid_encoding key.privkeylen key.privkey private
    pub' ← take_param (alloc pubkey_site) silent key.pubkeylen key.pubkey public
    composed ← set_composites (record key { privkey = priv'; pubkey = pub' })
    recreate_classickey evp composed (if is_null priv' then op_public else op_private)

  -- oqsx_import: nothing is imported unless parameters are selected.
  unfoldable pub import :
      Alloc
      → Option (OqsxKey Pkey)
      → Selection
      → (public private : Option Param) → Run (OqsxKey Pkey)
  unfolding fromdata
  import alloc none selection public private = err unexpected_null
  import alloc (some key) selection public private =
      if selection.domain_parameters || selection.other_parameters
      then fromdata alloc key public private
      else err silent

  -- A null key.
  abbrev or_malloc_failure : Run (OqsxKey Pkey) → Run (OqsxKey Pkey)
  or_malloc_failure (ok key) = ok key
  or_malloc_failure (err e) = err malloc_failure
  or_malloc_failure ub = ub

  -- oqsx_genkey, from the key that oqsx_key_new made or did not.
  unfoldable pub genkey : Oqs → Alloc → (seed : ℕ) → Run (OqsxKey Pkey) → Run (OqsxKey Pkey)
  genkey oqs alloc seed new = do
    key ← or_malloc_failure new
    r ← key_gen evp oqs alloc seed key
    if r.1 then err unexpected_null else ok r.0
