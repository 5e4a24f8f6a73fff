-- ===== src/Key/New/Total.antt =====
-- oqsx_key_new makes a key of every algorithm of nid_names.
use Prim.Native.String.{String}
use oqs_provider.Base.{
  ℕ, zero, suc, ◌+◌, ◌≡◌, refl, sym, ap, ◌∙◌, Bool, true, false, not, ◌&&◌, Bool-cases, inl, inr,
  Option, none, some, List, [], ◌∷◌, get_elem?, if◌then◌else◌, ltb,
}
use oqs_provider.Run.{Run, ok, err, ub, ok_injective, ◌>>=◌}
use oqs_provider.Extern.{
  Evp, Oqs, OqsName, OqsSig, OqsKem, Alloc, EvpType, EvpNid, key_site, evp_ctx_site, evp_ec,
  evp_rsa, evp_x25519, evp_x448, prime256v1, secp384r1, secp521r1, rsa_encryption, nid_undef,
  dilithium_2, dilithium_3, dilithium_5, falcon_512, falcon_1024, sphincs_sha2_128f_simple,
  sphincs_sha2_128s_simple, sphincs_sha2_192f_simple, sphincs_shake_128f_simple,
}
use oqs_provider.Key.{
  KeyType, sig, kem, ecp_hyb_kem, ecx_hyb_kem, hyb_sig, other, OqsxKey, EvpInfo, sig_ctx, kem_ctx,
}
use oqs_provider.Key.New.{
  key_new, by_primitive, with_propq, plain_key, hybrid_key, new_hyb_kem, init_kex, hybkem_init,
  hybsig_init, choose_row, security_index, name_index, same_prefix, nids_sig, nids_ecp, nids_ecx,
  ecp_names, ecx_names,
}
use oqs_provider.NidTable.{NidName, nid_names}

-- The choice of oqsx_hybsig_init, by the way that a row is chosen.
abbrev by_index : (ℕ → Option EvpInfo) → String → Option ℕ → Option EvpInfo
by_index choose name o = elim o [
  | none ↦ none
  | some idx ↦
      if ltb 2 idx
      then none
      else if same_prefix 8 name "rsa3072_"
      then choose (idx + 3)
      else if same_prefix 1 name "p"
      then choose idx
      else none
]

by_index-finds :
    (f g : ℕ → Option EvpInfo) (i : EvpInfo)
    → ((idx : ℕ) → f idx ≡ some i → g idx ≡ some i)
    → (name : String) (o : Option ℕ) → by_index f name o ≡ some i
    → by_index g name o ≡ some i
by_index-finds f g i finds name none e = absurd cc
by_index-finds f g i finds name (some idx) e =
    pick (ltb 2 idx) (same_prefix 8 name "rsa3072_") (same_prefix 1 name "p") e
  where
    pick :
        (a b c : Bool)
        → (if a then none else if b then f (idx + 3) else if c then f idx else none) ≡ some i
        → (if a then none else if b then g (idx + 3) else if c then g idx else none) ≡ some i
    pick true b c e = absurd cc
    pick false true c e = finds (idx + 3) e
    pick false false true e = finds idx e
    pick false false false e = absurd cc

-- The signature algorithms of liboqs; the others are KEMs.
abbrev pub is_sig_name : OqsName → Bool
is_sig_name dilithium_2 = true
is_sig_name dilithium_3 = true
is_sig_name dilithium_5 = true
is_sig_name falcon_512 = true
is_sig_name falcon_1024 = true
is_sig_name sphincs_sha2_128f_simple = true
is_sig_name sphincs_sha2_128s_simple = true
is_sig_name sphincs_sha2_192f_simple = true
is_sig_name sphincs_shake_128f_simple = true
is_sig_name _ = false

-- The classical algorithms of the provider: three curves, RSA, X25519 and X448.
abbrev pub is_classical : EvpType → EvpNid → Bool
is_classical evp_ec prime256v1 = true
is_classical evp_ec secp384r1 = true
is_classical evp_ec secp521r1 = true
is_classical evp_rsa rsa_encryption = true
is_classical evp_x25519 nid_undef = true
is_classical evp_x448 nid_undef = true
is_classical _ _ = false

abbrev if_classical : Option EvpInfo → Option EvpInfo
if_classical none = none
if_classical (some i) = if is_classical i.keytype i.nid then some i else none

-- The row at a place, unless it is the unused one.
abbrev classical_at : List EvpInfo → ℕ → Option EvpInfo
classical_at infos idx = if_classical (get_elem? infos idx)

-- The row of the classical algorithm that the level and the loops lead to.
unfoldable hybsig_row : ℕ → String → Option EvpInfo
unfolding security_index
hybsig_row bits name = by_index (classical_at nids_sig) name (security_index bits)

unfoldable hybkem_row : List (Option String) → List EvpInfo → String → Run (Option EvpInfo)
unfolding name_index
hybkem_row names infos tls = do idx ← name_index tls names 0; ok (classical_at infos idx)

abbrev some_row : Option EvpInfo → Bool
some_row none = false
some_row (some i) = true

abbrev ends_at_row : Run (Option EvpInfo) → Bool
ends_at_row (ok found) = some_row found
ends_at_row (err e) = false
ends_at_row ub = false

-- The row names an algorithm of its kind, and there is the classical one that its key is made from.
unfoldable has_row : NidName → Bool
unfolding hybsig_row hybkem_row
has_row r = elim r.keytype [
  | sig ↦ is_sig_name r.oqsname
  | kem ↦ not (is_sig_name r.oqsname)
  | hyb_sig ↦ is_sig_name r.oqsname && some_row (hybsig_row r.secbits r.tlsname)
  | ecp_hyb_kem ↦
      not (is_sig_name r.oqsname) && ends_at_row (hybkem_row ecp_names nids_ecp r.tlsname)
  | ecx_hyb_kem ↦
      not (is_sig_name r.oqsname) && ends_at_row (hybkem_row ecx_names nids_ecx r.tlsname)
  | other ↦ false
]

all_have_rows : List NidName → Bool
all_have_rows [] = true
all_have_rows (r ∷ rs) = has_row r && all_have_rows rs

both_true : (a b : Bool) → (a && b) ≡ true → (a ≡ true) × (b ≡ true)
both_true true b h = (refl, h)
both_true false b h = absurd cc

has_row-at :
    (rows : List NidName) (j : ℕ) (r : NidName)
    → all_have_rows rows ≡ true
    → get_elem? rows j ≡ some r
    → has_row r ≡ true
unfolding all_have_rows
has_row-at [] j r e at = absurd cc
has_row-at (x ∷ rows) zero r e at = ap has_row (same at) ∙ (both_true (has_row x) _ e).0
  where
    same : some x ≡ some r → r ≡ x
    same h = cc
has_row-at (x ∷ rows) (suc j) r e at = has_row-at rows j r (both_true (has_row x) _ e).1 at

all_rows : (kem_encoders : Bool) → all_have_rows (nid_names kem_encoders) ≡ true
unfolding all_have_rows has_row hybsig_row hybkem_row security_index name_index
all_rows true = refl
all_rows false = refl

module _ (evp : Evp) (oqs : Oqs) (alloc : Alloc) where
  open evp use {Pkey}

  -- Every allocation succeeds, OpenSSL makes the contexts for parameters of the classical algorithms, and
  -- liboqs has the signature algorithms and the KEMs of the provider.
  pub record HasAll : Type 0 where
    pub key_allocated : alloc key_site ≡ true
    pub ctx_allocated : alloc evp_ctx_site ≡ true
    pub param_ctx :
        (type : EvpType) (nid : EvpNid)
        → is_classical type nid ≡ true
        → evp.param_ctx type nid ≡ true
    pub sigs :
        (name : OqsName) → is_sig_name name ≡ true → (s : OqsSig) × (oqs.sig_new name ≡ some s)
    pub kems :
        (name : OqsName) → is_sig_name name ≡ false → (k : OqsKem) × (oqs.kem_new name ≡ some k)

  module _ (all : HasAll) where
    choose_row-classical :
        (infos : List EvpInfo) (i : EvpInfo) (idx : ℕ)
        → classical_at infos idx ≡ some i
        → choose_row evp infos idx ≡ some i
    unfolding choose_row
    choose_row-classical infos i idx e = found (get_elem? infos idx) e
      where
        found :
            (o : Option EvpInfo)
            → if_classical o ≡ some i
            → (elim o [
              | none ↦ none
              | some i ↦ if evp.param_ctx i.keytype i.nid then some i else none
            ])
              ≡ some i
        found none e = absurd cc
        found (some row) e = elim (Bool-cases (is_classical row.keytype row.nid)) [
          | inl real ↦
              rw (all.param_ctx row.keytype row.nid real)
                (sym (ap (λ b. if b then some row else none) real) ∙ e)
          | inr unused ↦ absurd (none_is (sym (ap (λ b. if b then some row else none) unused) ∙ e))
        ]
          where
            none_is : none ≡ some i → ⊥
            none_is h = absurd cc

    hybsig_init-row :
        (bits : ℕ) (name : String) (i : EvpInfo)
        → hybsig_row bits name ≡ some i
        → hybsig_init evp bits name ≡ some i
    unfolding hybsig_init hybsig_row
    hybsig_init-row bits name i e =
        by_index-finds (classical_at nids_sig) (choose_row evp nids_sig) i
          (choose_row-classical nids_sig i) name (security_index bits) e

    hybkem_init-row :
        (names : List (Option String)) (infos : List EvpInfo) (tls : String) (i : EvpInfo)
        → hybkem_row names infos tls ≡ ok (some i)
        → hybkem_init evp names infos tls ≡ ok (some i)
    unfolding hybkem_init hybkem_row
    hybkem_init-row names infos tls i e = found (name_index tls names 0) e
      where
        found :
            (m : Run ℕ)
            → (m >>= λ idx. ok (classical_at infos idx)) ≡ ok (some i)
            → (m >>= λ idx. ok (choose_row evp infos idx)) ≡ ok (some i)
        found (ok idx) e = ap ok (choose_row-classical infos i idx (ok_injective e))
        found (err x) e = absurd cc
        found ub e = absurd cc

    some_row-cases : (o : Option EvpInfo) → some_row o ≡ true → (i : EvpInfo) × (o ≡ some i)
    some_row-cases none e = absurd cc
    some_row-cases (some i) e = (i, refl)

    ends-cases :
        (m : Run (Option EvpInfo)) → ends_at_row m ≡ true → (i : EvpInfo) × (m ≡ ok (some i))
    ends-cases (ok none) e = absurd cc
    ends-cases (ok (some i)) e = (i, refl)
    ends-cases (err x) e = absurd cc
    ends-cases ub e = absurd cc

    false_of : (b : Bool) → not b ≡ true → b ≡ false
    false_of true e = absurd cc
    false_of false e = refl

    abbrev Makes : Run (OqsxKey Pkey) → Type 0
    Makes m = (key : OqsxKey Pkey) × (m ≡ ok key)

    new_hyb_kem-Makes :
        (name : OqsName) (tls : String) (type : KeyType) (ecx : Bool) (bits : ℕ) (i : EvpInfo)
        → is_sig_name name ≡ false
        → init_kex evp ecx tls ≡ ok (some i)
        → Makes (new_hyb_kem evp oqs alloc name tls type ecx bits)
    unfolding new_hyb_kem
    new_hyb_kem-Makes name tls type ecx bits i is_kem e =
        let k = (all.kems name is_kem).0 in
        (
          hybrid_key evp type (kem_ctx k) k.length_secret_key k.length_public_key bits tls i,
          rw ((all.kems name is_kem).1, all.ctx_allocated, e) refl,
        )

    by_primitive-Makes :
        (r : NidName)
        → has_row r ≡ true
        → Makes (by_primitive evp oqs alloc r.oqsname r.tlsname r.keytype r.secbits)
    unfolding by_primitive has_row init_kex
    by_primitive-Makes r h = go r.keytype h
      where
        go :
            (t : KeyType)
            → has_row (record r { keytype = t }) ≡ true
            → Makes (by_primitive evp oqs alloc r.oqsname r.tlsname t r.secbits)
        go sig e =
            let s = all.sigs r.oqsname e in
            (
              plain_key evp sig (sig_ctx s.0) s.0.length_secret_key s.0.length_public_key r.secbits
                  r.tlsname,
              rw (s.1) refl,
            )
        go kem e =
            let k = all.kems r.oqsname (false_of _ e) in
            (
              plain_key evp kem (kem_ctx k.0) k.0.length_secret_key k.0.length_public_key r.secbits
                  r.tlsname,
              rw (k.1) refl,
            )
        go ecp_hyb_kem e =
            let tests = both_true (not (is_sig_name r.oqsname)) _ e in
            let found = ends-cases _ tests.1 in
            new_hyb_kem-Makes r.oqsname r.tlsname ecp_hyb_kem false r.secbits found.0
              (false_of _ tests.0) (hybkem_init-row ecp_names nids_ecp r.tlsname found.0 found.1)
        go ecx_hyb_kem e =
            let tests = both_true (not (is_sig_name r.oqsname)) _ e in
            let found = ends-cases _ tests.1 in
            new_hyb_kem-Makes r.oqsname r.tlsname ecx_hyb_kem true r.secbits found.0
              (false_of _ tests.0) (hybkem_init-row ecx_names nids_ecx r.tlsname found.0 found.1)
        go hyb_sig e =
            let tests = both_true (is_sig_name r.oqsname) _ e in
            let found = some_row-cases _ tests.1 in
            let s = all.sigs r.oqsname tests.0 in
            (
              hybrid_key evp hyb_sig (sig_ctx s.0) s.0.length_secret_key s.0.length_public_key
                  r.secbits r.tlsname found.0,
              rw (s.1, all.ctx_allocated, hybsig_init-row r.secbits r.tlsname found.0 found.1) refl,
            )
        go other e = absurd cc

    -- For every algorithm of nid_names, with or without the KEMs, oqsx_key_new with what its row tells makes a
    -- key, when every allocation succeeds, OpenSSL makes the contexts for parameters of the curves, RSA,
    -- X25519 and X448, and liboqs has the signature algorithms and the KEMs: the loops over the names of the classical algorithms end at a name that is the
    -- algorithm's, and the index of the row is inside of its table.
    pub key_new-nid_names :
        (kem_encoders : Bool) (j : ℕ) (r : NidName)
        → get_elem? (nid_names kem_encoders) j ≡ some r
        → (key : OqsxKey Pkey) × (key_new evp oqs alloc
              (some r.oqsname)
              (some r.tlsname)
              r.keytype
              none
              r.secbits
            ≡ ok key)
    unfolding key_new with_propq
    key_new-nid_names kem_encoders j r at =
        let made =
          by_primitive-Makes r
            (has_row-at (nid_names kem_encoders) j r (all_rows kem_encoders) at) in
        (made.0, rw (all.key_allocated) (rw (made.1) refl))
