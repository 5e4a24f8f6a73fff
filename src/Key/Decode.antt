-- ===== src/Key/Decode.antt =====
-- Keys from their encodings, of oqsprov/oqsprov_keys.c: oqsx_key_op and what it calls, in the
-- default build.
pub mod Rebuild
pub mod RoundTrip
pub mod Public
pub mod Unchecked
pub mod Plain
use Prim.Native.String.{String}
use oqs_provider.Base.{
  ℕ, ◌+◌, ◌-◌, ◌==◌, ◌%◌, ◌^◌, Bool, true, false, not, Option, none, some, List, [], ◌∷◌,
  if◌then◌else◌, get_elem?, leb, length, ltb, drop, take,
}
use oqs_provider.Run.{
  Run, ok, err, ub, invalid_encoding, malloc_failure, evpinfo_missing, wrong_parameters, silent,
  ◌>>=◌, ◌>>◌, ensure,
}
use oqs_provider.Memory.{
  Bytes, Slot, at_offset, size_of_uint32, read, write, encode_uint32, decode_uint32, int_to_size,
}
use oqs_provider.Extern.{EvpType, evp_rsa, EvpNid, Evp, Oqs, Alloc}
use oqs_provider.Key.{
  KeyType, EvpInfo, OqsxKey, deref, read_slot, write_slot, set_composites, allocate_keymaterial,
  get_oqs_public_key_len,
}
use oqs_provider.NidTable.{NidName, get_oqsname, get_keytype, get_secbits}
use oqs_provider.Key.New.{key_new}

-- KEY_OP_KEYGEN is named and never used.
pub data KeyOp : Type 0 where
  op_public op_private op_keygen : KeyOp

module _ (evp : Evp) where
  open evp use {Pkey}

  -- A null pointer that a call returned.
  abbrev or_invalid {ℓ} : {A : Type ℓ} → Option A → Run A
  or_invalid none = err invalid_encoding
  or_invalid (some a) = ok a

  -- The curve that setECParams is called with, for all but RSA.
  abbrev curve_of : EvpInfo → Option EvpNid
  curve_of i = elim i.keytype [ evp_rsa ↦ none | _ ↦ some i.nid ]

  -- The classical key from its public bytes, as long as the header says.
  recreate_public : EvpInfo → OqsxKey Pkey → Run (OqsxKey Pkey)
  recreate_public i key = do
    buf ← deref key.pubkey
    len ← decode_uint32 buf
    enc ← read_slot key.pubkey (get_elem? key.comp_pubkey 0) (int_to_size len)
    p ← or_invalid (
        if i.raw_key_support
        then evp.new_raw_public_key i.keytype enc
        else evp.d2i_public_key i.keytype (curve_of i) enc)
    ok (record key { classical_pkey = some p })

  -- The public bytes of a classical key go to the first component.
  store_public : EvpInfo → OqsxKey Pkey → Bytes → Run (OqsxKey Pkey)
  store_public i key bs = do
    pub' ← write_slot key.pubkey (get_elem? key.comp_pubkey 0) bs
    ok (record key { pubkey = some pub' })

  -- A raw key is written if its length fits; DER is written, and then its length is compared.
  recreate_private_pub : EvpInfo → OqsxKey Pkey → Pkey → Run (OqsxKey Pkey)
  unfolding store_public
  recreate_private_pub i key p =
      if i.raw_key_support
      then (do
        bs ← or_invalid (evp.get_raw_public_key p)
        ensure (length bs == i.length_public_key) invalid_encoding
        store_public i key bs)
      else (do
        bs ← or_invalid (evp.i2d_public_key p)
        key' ← store_public i key bs
        ensure (length bs == i.length_public_key) invalid_encoding
        ok key')

  recreate_private : EvpInfo → OqsxKey Pkey → Run (OqsxKey Pkey)
  unfolding recreate_private_pub
  recreate_private i key = do
    buf ← deref key.privkey
    len ← decode_uint32 buf
    enc ← read_slot key.privkey (get_elem? key.comp_privkey 0) (int_to_size len)
    p ← or_invalid (
        if i.raw_key_support
        then evp.new_raw_private_key i.keytype enc
        else evp.d2i_private_key i.keytype enc)
    recreate_private_pub i (record key { classical_pkey = some p }) p

  recreate_by_op : EvpInfo → OqsxKey Pkey → KeyOp → Run (OqsxKey Pkey)
  unfolding recreate_public recreate_private
  recreate_by_op i key op_public = recreate_public i key
  recreate_by_op i key op_private = recreate_private i key
  recreate_by_op i key op_keygen = ok key

  -- oqsx_key_recreate_classickey
  unfoldable pub recreate_classickey : OqsxKey Pkey → KeyOp → Run (OqsxKey Pkey)
  unfolding recreate_by_op
  recreate_classickey key op =
      if key.numkeys == 2
      then elim key.evp_info [ none ↦ err evpinfo_missing | some i ↦ recreate_by_op i key op ]
      else ok key

  -- The buffer for key material, or ERR_R_MALLOC_FAILURE.
  abbrev allocated : Alloc → OqsxKey Pkey → Bool → Run (OqsxKey Pkey)
  allocated alloc key private =
      let (key', failed) = allocate_keymaterial alloc key private in
      if failed then err malloc_failure else ok key'

  load_public : Alloc → OqsxKey Pkey → Bytes → Run (OqsxKey Pkey)
  unfolding allocate_keymaterial
  load_public alloc key p = do
    ensure (key.pubkeylen == length p) invalid_encoding
    key' ← allocated alloc key false
    buf ← deref key'.pubkey
    pub' ← write buf 0 p
    ok (record key' { pubkey = some pub' })

  -- The length of the private part of the input: less than the key's if the classical key is short.
  actual_privkeylen : OqsxKey Pkey → Bytes → Run ℕ
  actual_privkeylen key p =
      if key.numkeys == 2
      then (do
        n ← decode_uint32 p
        i ← deref key.evp_info
        ensure (leb (int_to_size n) i.length_private_key) invalid_encoding
        ok (key.privkeylen - (i.length_private_key - int_to_size n)))
      else ok key.privkeylen

  -- The liboqs public key behind the private part, at the place that a full classical key leaves.
  place_oqs_public : OqsxKey Pkey → Bytes → Bytes → Run Bytes
  place_oqs_public key buf oqs_pub =
      if key.numkeys == 2
      then (do
        i ← deref key.evp_info
        buf' ← write buf 0 (encode_uint32 i.length_public_key)
        write buf' (size_of_uint32 + i.length_public_key) oqs_pub)
      else write buf 0 oqs_pub

  load_private : Alloc → OqsxKey Pkey → Bytes → Run (OqsxKey Pkey)
  unfolding allocate_keymaterial actual_privkeylen place_oqs_public
  load_private alloc key p = do
    actual ← actual_privkeylen key p
    publen ← get_oqs_public_key_len key
    oqs_len ← or_invalid publen
    ensure (actual + oqs_len == length p) invalid_encoding
    key' ← allocated alloc key true
    key'' ← allocated alloc key' false
    privbuf ← deref key''.privkey
    private ← read p 0 actual
    priv' ← write privbuf 0 private
    pubbuf ← deref key''.pubkey
    oqs_pub ← read p actual (length p - actual)
    pub' ← place_oqs_public key'' pubbuf oqs_pub
    ok (record key'' { privkey = some priv'; pubkey = some pub' })

  load_by_op : Alloc → OqsxKey Pkey → Bytes → KeyOp → Run (OqsxKey Pkey)
  unfolding load_public load_private
  load_by_op alloc key p op_public = load_public alloc key p
  load_by_op alloc key p op_private = load_private alloc key p
  load_by_op alloc key p op_keygen = load_private alloc key p

  -- oqsx_key_op from the new key on.
  unfoldable pub fill_key : Alloc → OqsxKey Pkey → Bytes → KeyOp → Run (OqsxKey Pkey)
  unfolding load_by_op
  fill_key alloc key p op = do
    loaded ← load_by_op alloc key p op
    composed ← set_composites loaded
    recreate_classickey composed op

  -- oqsx_key_new_from_nid: the name of a number is OpenSSL's, the rest the table's.
  unfoldable pub key_new_from_nid :
      Oqs
      → Alloc
      → List NidName
      → (nid2sn : ℕ → Option String) → Option String
      → ℕ
      → Run (OqsxKey Pkey)
  key_new_from_nid oqs alloc rows nid2sn propq nid = elim (nid2sn nid) [
    | none ↦ err wrong_parameters
    | some tls ↦
        key_new evp oqs alloc (get_oqsname rows nid) (some tls) (get_keytype rows nid) propq
          (get_secbits rows nid)
  ]

  -- A null key is ERR_R_MALLOC_FAILURE, whatever was raised before.
  abbrev or_malloc_failure : Run (OqsxKey Pkey) → Run (OqsxKey Pkey)
  or_malloc_failure (ok key) = ok key
  or_malloc_failure (err e) = err malloc_failure
  or_malloc_failure ub = ub

  -- The number of an algorithm identifier, whose parameters must be absent; 0 for none given.
  abbrev algorithm_nid : Option (Bool × ℕ) → Run ℕ
  algorithm_nid none = ok 0
  algorithm_nid (some (absent, nid)) = do ensure absent invalid_encoding; ok nid

  -- oqsx_key_op: re-creates a key from an algorithm identifier and bytes.
  unfoldable pub key_op :
      Oqs
      → Alloc
      → List NidName
      → (nid2sn : ℕ → Option String) → Option (Bool × ℕ)
      → Option Bytes
      → KeyOp
      → Option String
      → Run (OqsxKey Pkey)
  unfolding key_new_from_nid fill_key
  key_op oqs alloc rows nid2sn palg p op propq = do
    nid ← algorithm_nid palg
    bytes ← or_invalid p
    ensure (not (nid == 0)) invalid_encoding
    key ← or_malloc_failure (key_new_from_nid oqs alloc rows nid2sn propq nid)
    fill_key alloc key bytes op

  -- oqsx_key_from_x509pubkey and oqsx_key_from_pkcs8, from what the ASN.1 calls deliver: the
  -- algorithm and the bytes; the bytes of a private key are an octet string, null if it is none.
  unfoldable pub key_from_x509pubkey :
      Oqs
      → Alloc
      → List NidName
      → (nid2sn : ℕ → Option String) → Option ((Bool × ℕ) × Bytes)
      → Option String
      → Run (OqsxKey Pkey)
  unfolding key_op
  key_from_x509pubkey oqs alloc rows nid2sn none propq = err silent
  key_from_x509pubkey oqs alloc rows nid2sn (some (palg, p)) propq =
      key_op oqs alloc rows nid2sn (some palg) (some p) op_public propq

  unfoldable pub key_from_pkcs8 :
      Oqs
      → Alloc
      → List NidName
      → (nid2sn : ℕ → Option String) → Option ((Bool × ℕ) × Option Bytes)
      → Option String
      → Run (OqsxKey Pkey)
  unfolding key_op
  key_from_pkcs8 oqs alloc rows nid2sn none propq = err silent
  key_from_pkcs8 oqs alloc rows nid2sn (some (palg, oct)) propq =
      key_op oqs alloc rows nid2sn (some palg) oct op_private propq
