-- ===== src/KeyMgmt/Params.antt =====
-- oqsprov/oqs_kmgmt.c: the parameters of a key, the context that keys are generated from, and how a key is
-- taken from a decoder.
pub mod RoundTrip
use Prim.Native.String.{String}
use oqs_provider.Base.{
  ℕ, ◌-◌, ◌==◌, Bool, true, false, ◌&&◌, Option, none, some, List, [], ◌∷◌, ◌++◌, if◌then◌else◌,
  length, get_elem?,
}
use oqs_provider.Run.{Run, ok, err, ub, silent, ◌>>=◌, ◌>>◌, ensure}
use oqs_provider.Memory.{Bytes, Slot, null, at_offset, detached, unset, read, write, size_of_uint32}
use oqs_provider.Extern.{Evp, Oqs, Alloc, OqsName}
use oqs_provider.Key.{OqsxKey, KeyType, ecp_hyb_kem, ecx_hyb_kem, maxsize, deref, write_slot}
use oqs_provider.Key.New.{key_new}
use oqs_provider.KeyMgmt.{Param, octet_string, other_type, encoded_public_key, genkey}

-- What oqsx_get_params writes into a parameter.
pub data Value : Type 0 where
  number : ℕ → Value
  text : String → Value
  octets : Bytes → Value

-- A parameter that is asked for takes the value or refuses it.
abbrev pub Request : Type 0
Request = Option (Value → Bool)

pub record Requests : Type 0 where
  pub bits : Request
  pub security_bits : Request
  pub max_size : Request
  pub default_digest : Request
  pub mandatory_digest : Request
  pub encoded : Request
  pub pub_key : Request
  pub priv_key : Request

-- The values that were written.
pub record Answers : Type 0 where
  pub bits : Option Value
  pub security_bits : Option Value
  pub max_size : Option Value
  pub default_digest : Option Value
  pub mandatory_digest : Option Value
  pub encoded : Option Value
  pub pub_key : Option Value
  pub priv_key : Option Value

-- `if ((p = OSSL_PARAM_locate(...)) != NULL && !OSSL_PARAM_set_...(p, v)) return 0;`
abbrev pub give : Request → Run Value → Run (Option Value)
give none v = ok none
give (some takes) v = do x ← v; ensure (takes x) silent; ok (some x)

-- A buffer as an octet string; the setters refuse a null pointer.
abbrev whole_buffer : Option Bytes → ℕ → Run Value
whole_buffer none n = err silent
whole_buffer (some buf) n = do bytes ← read buf 0 n; ok (octets bytes)

-- OSSL_PKEY_PARAM_PROPERTIES and OSSL_KDF_PARAM_PROPERTIES: of another type, or text that may be null.
pub data Properties : Type 0 where
  not_text : Properties
  utf8_string : Option String → Properties

abbrev pub is_hybrid_kem : KeyType → Bool
is_hybrid_kem ecp_hyb_kem = true
is_hybrid_kem ecx_hyb_kem = true
is_hybrid_kem _ = false

module _ {Pkey : Type 0} where
  -- oqsx_get_params, in the order of the code, with the security level for the bits.
  unfoldable pub get_params : OqsxKey Pkey → Requests → Run Answers
  unfolding maxsize encoded_public_key
  get_params key asked = do
    bits ← give asked.bits (ok (number key.bit_security))
    security_bits ← give asked.security_bits (ok (number key.bit_security))
    max_size ← give asked.max_size (do n ← maxsize key; ok (number n))
    default_digest ← give asked.default_digest (ok (text "UNDEF"))
    mandatory_digest ← give asked.mandatory_digest (ok (text "UNDEF"))
    encoded ← give asked.encoded (do bytes ← encoded_public_key key; ok (octets bytes))
    pub_key ← give asked.pub_key (whole_buffer key.pubkey key.pubkeylen)
    priv_key ← give asked.priv_key (whole_buffer key.privkey key.privkeylen)
    ok (record {
      bits = bits;
      security_bits = security_bits;
      max_size = max_size;
      default_digest = default_digest;
      mandatory_digest = mandatory_digest;
      encoded = encoded;
      pub_key = pub_key;
      priv_key = priv_key;
    })

  -- set_property_query: the old query is gone whether or not the new one could be copied.
  unfoldable pub set_property_query :
      (alloc_ok : Bool) → OqsxKey Pkey → Option String → OqsxKey Pkey × Bool
  set_property_query alloc_ok key none = (record key { propq = none }, true)
  set_property_query alloc_ok key (some q) =
      if alloc_ok
      then (record key { propq = some q }, true)
      else (record key { propq = none }, false)

  -- OSSL_PARAM_get_octet_string through a pointer that is not null, or that is and takes a new block.
  abbrev into_component :
      (alloc_ok : Bool) → OqsxKey Pkey → List Slot → Bytes → Run (OqsxKey Pkey × Bool)
  into_component alloc_ok key (at_offset off ∷ slots) bytes = do
    buf ← write_slot key.pubkey (some (at_offset off)) bytes
    ok (record key { pubkey = some buf }, true)
  into_component alloc_ok key (detached block ∷ slots) bytes =
      ok (record key { comp_pubkey = detached bytes ∷ slots }, true)
  into_component alloc_ok key (null ∷ slots) bytes =
      if alloc_ok
      then ok (record key { comp_pubkey = detached bytes ∷ slots }, true)
      else ok (key, false)
  into_component alloc_ok key (unset ∷ slots) bytes = ub
  into_component alloc_ok key [] bytes = ub

  abbrev into_pubkey :
      (alloc_ok : Bool) → OqsxKey Pkey → Option Bytes → Bytes → Run (OqsxKey Pkey × Bool)
  into_pubkey alloc_ok key (some buf) bytes = do
    buf' ← write buf 0 bytes
    ok (record key { pubkey = some buf' }, true)
  into_pubkey alloc_ok key none bytes =
      if alloc_ok then ok (record key { pubkey = some bytes }, true) else ok (key, false)

  -- The encoded public key goes behind the header of a hybrid KEM's buffer, and over the buffer of any
  -- other key. The pointers to the components stay.
  unfoldable pub store_encoded :
      (alloc_ok : Bool) → OqsxKey Pkey → Bytes → Run (OqsxKey Pkey × Bool)
  store_encoded alloc_ok key bytes =
      if is_hybrid_kem key.keytype
      then (if length bytes == key.pubkeylen - size_of_uint32
          then into_component alloc_ok key key.comp_pubkey bytes
          else ok (key, false))
      else (if length bytes == key.pubkeylen
          then into_pubkey alloc_ok key key.pubkey bytes
          else ok (key, false))

  -- A key that takes a public key loses its private one.
  unfoldable pub set_encoded :
      (alloc_ok : Bool) → OqsxKey Pkey → Option Param → Run (OqsxKey Pkey × Bool)
  unfolding store_encoded
  set_encoded alloc_ok key none = ok (key, true)
  set_encoded alloc_ok key (some other_type) = ok (key, false)
  set_encoded alloc_ok key (some (octet_string bytes)) = do
    r ← store_encoded alloc_ok key bytes
    ok (if r.1 then (record r.0 { privkey = none }, true) else r)

  abbrev set_properties : (alloc_ok : Bool) → OqsxKey Pkey → Option Properties → OqsxKey Pkey × Bool
  set_properties alloc_ok key none = (key, true)
  set_properties alloc_ok key (some not_text) = (key, false)
  set_properties alloc_ok key (some (utf8_string q)) = set_property_query alloc_ok key q

  -- oqsx_set_params: the key as it is left, and the value that is returned.
  unfoldable pub set_params :
      (pubkey_ok propq_ok : Bool)
      → OqsxKey Pkey
      → Option Param
      → Option Properties
      → Run (OqsxKey Pkey × Bool)
  unfolding set_encoded set_property_query
  set_params pubkey_ok propq_ok key encoded properties = do
    r ← set_encoded pubkey_ok key encoded
    ok (if r.1 then set_properties propq_ok r.0 properties else r)

-- `struct oqsx_gen_ctx`: a name that could not be copied is null.
pub record GenCtx : Type 0 where
  pub oqs_name : Option OqsName
  pub tls_name : Option String
  pub propq : Option String
  pub primitive : KeyType
  pub bit_security : ℕ

abbrev copied {ℓ} : {A : Type ℓ} → Bool → A → Option A
copied copy_ok a = if copy_ok then some a else none

-- oqsx_gen_init: no copy is looked at.
unfoldable pub gen_init :
    (alloc_ok name_ok tls_ok : Bool)
    → OqsName
    → String
    → KeyType
    → (bit_security : ℕ) → Option GenCtx
gen_init alloc_ok name_ok tls_ok oqs_name tls_name primitive bit_security =
    if alloc_ok
    then some (record {
      oqs_name = copied name_ok oqs_name;
      tls_name = copied tls_ok tls_name;
      propq = none;
      primitive = primitive;
      bit_security = bit_security;
    })
    else none

-- A group name takes the place of the TLS name, whether or not it could be copied.
abbrev set_group : (copy_ok : Bool) → GenCtx → Option String → GenCtx
set_group copy_ok gctx none = gctx
set_group copy_ok gctx (some name) = record gctx { tls_name = copied copy_ok name }

-- Text that is null cannot be copied: OPENSSL_strdup gives null for it.
abbrev set_gen_properties : (copy_ok : Bool) → GenCtx → Option Properties → GenCtx × Bool
set_gen_properties copy_ok gctx none = (gctx, true)
set_gen_properties copy_ok gctx (some not_text) = (gctx, false)
set_gen_properties copy_ok gctx (some (utf8_string none)) = (record gctx { propq = none }, false)
set_gen_properties copy_ok gctx (some (utf8_string (some q))) =
    (record gctx { propq = copied copy_ok q }, copy_ok)

-- oqsx_gen_set_params
unfoldable pub gen_set_params :
    (group_ok propq_ok : Bool) → GenCtx → Option String → Option Properties → GenCtx × Bool
gen_set_params group_ok propq_ok gctx group properties =
    set_gen_properties propq_ok (set_group group_ok gctx group) properties

-- oqsx_gen with oqsx_genkey
unfoldable pub gen : (evp : Evp) → Oqs → Alloc → (seed : ℕ) → GenCtx → Run (OqsxKey evp.Pkey)
unfolding genkey
gen evp oqs alloc seed gctx =
    genkey evp oqs alloc seed (
      key_new evp oqs alloc gctx.oqs_name gctx.tls_name gctx.primitive gctx.propq gctx.bit_security)

-- oqsx_load: a reference of the right size gives its key away.
unfoldable pub load :
    {Key : Type 0} → (size_fits : Bool) → (reference : Option Key) → Option Key × Option Key
load size_fits reference = if size_fits then (reference, none) else (none, reference)
