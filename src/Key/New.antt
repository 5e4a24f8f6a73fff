-- ===== src/Key/New.antt =====
-- oqsx_key_new of oqsprov/oqsprov_keys.c, the tables of classical algorithms, and the choice of a
-- row by an algorithm's name and security level.
pub mod Shaped
pub mod Total
pub mod Examples
use Prim.Native.String.{String}
use oqs_provider.Base.{
  ℕ, suc, ◌+◌, ◌-◌, ◌/◌, ◌==◌, Bool, true, false, ◌||◌, ◌&&◌, not, Option, none, some, List, [],
  ◌∷◌, if◌then◌else◌, get_elem?, take, ltb, leb, codes,
}
use oqs_provider.Run.{Run, ok, err, ub, malloc_failure, ◌>>=◌, ◌>>◌, ensure}
use oqs_provider.Memory.{Slot, unset, size_of_uint32}
use oqs_provider.Extern.{
  EvpType, evp_ec, evp_rsa, evp_x25519, evp_x448, evp_none, EvpNid, prime256v1, secp384r1,
  secp521r1, rsa_encryption, nid_undef, OqsName, Evp, Oqs, Alloc, key_site, evp_ctx_site,
  propq_site,
}
use oqs_provider.Key.{
  KeyType, sig, kem, ecp_hyb_kem, ecx_hyb_kem, hyb_sig, other, EvpInfo, QsCtx, sig_ctx, kem_ctx,
  OqsxKey,
}

abbrev info : EvpType → EvpNid → Bool → ℕ → ℕ → ℕ → ℕ → EvpInfo
info type nid raw public private secret signature = record {
  keytype = type;
  nid = nid;
  raw_key_support = raw;
  length_public_key = public;
  length_private_key = private;
  kex_length_secret = secret;
  length_signature = signature;
}

abbrev pub nids_sig : List EvpInfo
nids_sig =
    info evp_ec prime256v1 false 65 121 32 72
    ∷ info evp_ec secp384r1 false 97 167 48 104
    ∷ info evp_ec secp521r1 false 133 223 66 141
    ∷ info evp_rsa rsa_encryption false 398 1770 0 384
    ∷ []

abbrev pub nids_ecp : List EvpInfo
nids_ecp =
    info evp_ec prime256v1 false 65 121 32 0
    ∷ info evp_ec secp384r1 false 97 167 48 0
    ∷ info evp_ec secp521r1 false 133 223 66 0
    ∷ []

abbrev pub nids_ecx : List EvpInfo
nids_ecx =
    info evp_x25519 nid_undef true 32 32 32 0
    ∷ info evp_x448 nid_undef true 56 56 56 0
    ∷ info evp_none nid_undef false 0 0 0 0
    ∷ []

-- The names that the loops compare with; the arrays end in a null pointer.
abbrev pub ecp_names : List (Option String)
ecp_names = some "p256" ∷ some "p384" ∷ some "p521" ∷ none ∷ []

abbrev pub ecx_names : List (Option String)
ecx_names = some "x25519" ∷ some "x448" ∷ none ∷ []

abbrev pub same_bytes : List ℕ → List ℕ → Bool
same_bytes [] [] = true
same_bytes [] (y ∷ ys) = false
same_bytes (x ∷ xs) [] = false
same_bytes (x ∷ xs) (y ∷ ys) = x == y && same_bytes xs ys

-- `!strncmp(a, b, n)`
abbrev pub same_prefix : ℕ → String → String → Bool
same_prefix n a b = same_bytes (take n (codes a)) (take n (codes b))

-- `while (idx < sizeof(NAMES))`: the bound counts bytes, so the loop ends at a name that fits or
-- hands the null pointer to strncmp.
unfoldable pub name_index : String → List (Option String) → ℕ → Run ℕ
name_index tls [] idx = ok idx
name_index tls (none ∷ names) idx = ub
name_index tls (some name ∷ names) idx =
    let rest = name_index tls names (suc idx) in if same_prefix 4 tls name then ok idx else rest

-- `(bit_security - 128) / 64` of C, which rounds towards zero: `none` where it is negative.
unfoldable pub security_index : ℕ → Option ℕ
security_index bits =
    if leb 128 bits
    then some ((bits - 128) / 64)
    else if ltb 0 ((128 - bits) / 64)
    then none
    else some 0

module _ (evp : Evp) where
  open evp use {Pkey, param_ctx}

  -- `evp_info` points to the row, and the context for it is made.
  choose_row : List EvpInfo → ℕ → Option EvpInfo
  choose_row infos idx = elim (get_elem? infos idx) [
    | none ↦ none
    | some i ↦ if param_ctx i.keytype i.nid then some i else none
  ]

  -- What oqsx_hybsig_init stores in `evp_info`, if it also makes the context.
  unfoldable pub hybsig_init : ℕ → String → Option EvpInfo
  unfolding security_index choose_row
  hybsig_init bits name = elim (security_index bits) [
    | none ↦ none
    | some idx ↦
        if ltb 2 idx
        then none
        else if same_prefix 8 name "rsa3072_"
        then choose_row nids_sig (idx + 3)
        else if same_prefix 1 name "p"
        then choose_row nids_sig idx
        else none
  ]

  -- oqshybkem_init_ecp and oqshybkem_init_ecx, over their tables of names and rows.
  unfoldable pub hybkem_init : List (Option String) → List EvpInfo → String → Run (Option EvpInfo)
  unfolding name_index choose_row
  hybkem_init names infos tls = do idx ← name_index tls names 0; ok (choose_row infos idx)

  -- `init_kex_fun[primitive - KEY_TYPE_ECP_HYB_KEM]`
  unfoldable pub init_kex : Bool → String → Run (Option EvpInfo)
  unfolding hybkem_init
  init_kex true tls = hybkem_init ecx_names nids_ecx tls
  init_kex false tls = hybkem_init ecp_names nids_ecp tls

  -- A new key with one component: the arrays are as `malloc` left them, the buffers null.
  plain_key : KeyType → QsCtx → (privlen publen bits : ℕ) → String → OqsxKey Pkey
  plain_key type qs privlen publen bits tls = record {
    keytype = type;
    qs_ctx = qs;
    classical_pkey = none;
    evp_info = none;
    numkeys = 1;
    privkeylen = privlen;
    pubkeylen = publen;
    bit_security = bits;
    tls_name = tls;
    propq = none;
    references = 1;
    comp_privkey = unset ∷ [];
    comp_pubkey = unset ∷ [];
    privkey = none;
    pubkey = none;
  }

  -- With a classical component, each buffer has a header and room for both keys.
  hybrid_key : KeyType → QsCtx → (privlen publen bits : ℕ) → String → EvpInfo → OqsxKey Pkey
  unfolding plain_key
  hybrid_key type qs privlen publen bits tls i =
      record (plain_key type qs (size_of_uint32 + privlen + i.length_private_key)
        (size_of_uint32 + publen + i.length_public_key) bits tls) {
          evp_info = some i;
          numkeys = 2;
          comp_privkey = unset ∷ unset ∷ [];
          comp_pubkey = unset ∷ unset ∷ [];
        }

  -- `if (!p) goto err`
  abbrev or_err {ℓ} : {A : Type ℓ} → Option A → Run A
  or_err none = err malloc_failure
  or_err (some a) = ok a

  -- The hybrid cases: liboqs' object first, then the classical context.
  new_hyb_kem : Oqs → Alloc → OqsName → String → KeyType → (ecx : Bool) → ℕ → Run (OqsxKey Pkey)
  unfolding hybrid_key init_kex
  new_hyb_kem oqs alloc name tls type ecx bits = do
    k ← or_err (oqs.kem_new name)
    ensure (alloc evp_ctx_site) malloc_failure
    found ← init_kex ecx tls
    i ← or_err found
    ok (hybrid_key type (kem_ctx k) k.length_secret_key k.length_public_key bits tls i)

  by_primitive : Oqs → Alloc → OqsName → String → KeyType → ℕ → Run (OqsxKey Pkey)
  unfolding plain_key hybrid_key new_hyb_kem hybsig_init
  by_primitive oqs alloc name tls sig bits = do
    s ← or_err (oqs.sig_new name)
    ok (plain_key sig (sig_ctx s) s.length_secret_key s.length_public_key bits tls)
  by_primitive oqs alloc name tls kem bits = do
    k ← or_err (oqs.kem_new name)
    ok (plain_key kem (kem_ctx k) k.length_secret_key k.length_public_key bits tls)
  by_primitive oqs alloc name tls ecx_hyb_kem bits =
      new_hyb_kem oqs alloc name tls ecx_hyb_kem true bits
  by_primitive oqs alloc name tls ecp_hyb_kem bits =
      new_hyb_kem oqs alloc name tls ecp_hyb_kem false bits
  by_primitive oqs alloc name tls hyb_sig bits = do
    s ← or_err (oqs.sig_new name)
    ensure (alloc evp_ctx_site) malloc_failure
    i ← or_err (hybsig_init bits tls)
    ok (hybrid_key hyb_sig (sig_ctx s) s.length_secret_key s.length_public_key bits tls i)
  by_primitive oqs alloc name tls other bits = err malloc_failure

  -- A property query is copied.
  with_propq : Alloc → Option String → OqsxKey Pkey → Run (OqsxKey Pkey)
  with_propq alloc none key = ok key
  with_propq alloc (some q) key = do
    ensure (alloc propq_site) malloc_failure
    ok (record key { propq = some q })

  -- oqsx_key_new: every failure raises ERR_R_MALLOC_FAILURE and returns null.
  unfoldable pub key_new :
      Oqs
      → Alloc
      → Option OqsName
      → Option String
      → KeyType
      → Option String
      → (bit_security : ℕ) → Run (OqsxKey Pkey)
  unfolding by_primitive with_propq
  key_new oqs alloc oqs_name tls_name primitive propq bits = do
    ensure (alloc key_site) malloc_failure
    name ← or_err oqs_name
    tls ← or_err tls_name
    key ← by_primitive oqs alloc name tls primitive bits
    with_propq alloc propq key
