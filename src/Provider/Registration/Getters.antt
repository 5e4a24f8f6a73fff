-- ===== src/Provider/Registration/Getters.antt =====
-- Keys from the numbers that the registration stored: OSSL_provider_init of oqsprov/oqsprov.c, and
-- oqsx_key_new_from_nid with the getters of oqsprov/oqsprov_keys.c.
use Prim.Native.String.{String}
use text.Mathlib.Text.{◌==◌ as str_eq}
use text.Mathlib.TextEquality.{eq_iff}
use oqs_provider.Base.{
  ℕ, zero, suc, ◌<◌, ◌==◌, ◌≡◌, refl, sym, ◌∙◌, subst, Bool, true, false, Option, some, List, [],
  ◌∷◌, get_elem?, ==_iff, equal, Bool-cases, inl, inr,
}
use oqs_provider.Run.{ok, Post}
use oqs_provider.Extern.{Evp, Oqs, Alloc}
use oqs_provider.Key.New.{key_new}
use oqs_provider.Key.Decode.{key_new_from_nid}
use oqs_provider.NidTable.{NidName, nid_names, find_nid, get_oqsname, get_keytype, get_secbits}
use oqs_provider.Env.{GetEnv}
use oqs_provider.Provider.{Objects, ObjectCall, register_all}
use oqs_provider.Provider.Oids.{oid_alg_list, patch_oids}
use oqs_provider.Provider.Oids.Patched.{patch_oids-described, described}
use oqs_provider.Provider.Registration.{
  KeepsNumbers, numbered, all_numbered, AllKnown, register_all-Done,
}
use oqs_provider.Provider.Registration.Names.{
  all_fresh, distinct_names, both_true, fresh_at, Matches, names_match, names_match-Matches,
}

nid_names-distinct : (kem_encoders : Bool) → distinct_names (nid_names kem_encoders) ≡ true
nid_names-distinct true = refl
nid_names-distinct false = refl

pub oids-Matches :
    (getenv : GetEnv) (kem_encoders : Bool)
    → Matches (patch_oids getenv kem_encoders (oid_alg_list kem_encoders)) (nid_names kem_encoders)
oids-Matches getenv kem_encoders =
    subst (λ list. Matches list (nid_names kem_encoders))
      (sym (patch_oids-described getenv kem_encoders))
      (names_match-Matches _ (nid_names kem_encoders) (matching kem_encoders))
  where
    matching :
        (kem_encoders : Bool)
        → names_match (described getenv (oid_alg_list kem_encoders)) (nid_names kem_encoders) ≡ true
    matching true = refl
    matching false = refl

module _ {W : Type 0} (o : Objects W) (obj_create obj_add_sigid : ObjectCall W)
    (laws : KeepsNumbers o obj_create obj_add_sigid) where
  same_row :
      (w : W) (x r : NidName) (rest : List NidName)
      → some x ≡ some r
      → find_nid (numbered o obj_create obj_add_sigid w x ∷ rest) (o.sn2nid r.tlsname w)
        ≡ some (numbered o obj_create obj_add_sigid w r)
  unfolding find_nid
  same_row w x r rest e =
      subst
        (λ y.
          find_nid (numbered o obj_create obj_add_sigid w x ∷ rest) (o.sn2nid y.tlsname w)
          ≡ some (numbered o obj_create obj_add_sigid w y))
        same (rw (equal (o.sn2nid x.tlsname w) _ refl) refl)
    where
      same : x ≡ r
      same = cc

  numbers_differ :
      (w : W) (a b : String)
      → 0 < o.sn2nid a w
      → str_eq a b ≡ false
      → (o.sn2nid a w == o.sn2nid b w) ≡ false
  numbers_differ w a b positive differ = elim (Bool-cases (o.sn2nid a w == o.sn2nid b w)) [
    | inl same ↦ absurd_true (
        sym differ
        ∙ (eq_iff a b).1
            (laws.distinct a b w positive ((==_iff (o.sn2nid a w) (o.sn2nid b w)).0 same)))
    | inr other ↦ other
  ]
    where
      absurd_true : false ≡ true → (o.sn2nid a w == o.sn2nid b w) ≡ false
      absurd_true e = absurd cc

  find_nid-numbered :
      (w : W) (rows : List NidName) (j : ℕ) (r : NidName)
      → distinct_names rows ≡ true
      → AllKnown o obj_create obj_add_sigid w rows
      → get_elem? rows j ≡ some r
      → find_nid (all_numbered o obj_create obj_add_sigid w rows) (o.sn2nid r.tlsname w)
        ≡ some (numbered o obj_create obj_add_sigid w r)
  unfolding find_nid
  find_nid-numbered w [] j r unique known at = absurd cc
  find_nid-numbered w (x ∷ rows) zero r unique known at = same_row w x r _ at
  find_nid-numbered w (x ∷ rows) (suc j) r unique (positive, known) at =
      let both = both_true (all_fresh x.tlsname rows) _ unique in
      rw (numbers_differ w x.tlsname r.tlsname positive (fresh_at x.tlsname rows j r both.0 at))
        (find_nid-numbered w rows j r both.1 known at)

  module _ (version : Option String) (getenv : GetEnv) (kem_encoders : Bool) (w w' : W)
      (rows' : List NidName)
      (registered : register_all o obj_create obj_add_sigid version
          (patch_oids getenv kem_encoders (oid_alg_list kem_encoders))
          (nid_names kem_encoders)
          w
        ≡ ok (rows', w')) where
    find_nid-register_all :
        (j : ℕ) (r : NidName)
        → get_elem? (nid_names kem_encoders) j ≡ some r
        → find_nid rows' (o.sn2nid r.tlsname w') ≡ some (numbered o obj_create obj_add_sigid w' r)
    find_nid-register_all j r at =
        let done =
          subst
            (Post (λ out.
              (out.0 ≡ all_numbered o obj_create obj_add_sigid out.1 (nid_names kem_encoders))
              × AllKnown o obj_create obj_add_sigid out.1 (nid_names kem_encoders)))
            registered
            (register_all-Done o obj_create obj_add_sigid laws version
              (patch_oids getenv kem_encoders (oid_alg_list kem_encoders)) []
              (nid_names kem_encoders) w (oids-Matches getenv kem_encoders)
              (nid_names-distinct kem_encoders) tt) in
        rw (done.0) (
          find_nid-numbered w' (nid_names kem_encoders) j r (nid_names-distinct kem_encoders) done.1
            at)

    -- After a registration that succeeded, of the patched identifiers over the table as it is at load time, with
    -- or without the KEMs and whatever the environment holds, a key that is made from the number of an
    -- algorithm of the table is the one that its row by name describes: when OpenSSL's table of
    -- objects keeps different numbers for different names and gives the name back for the number.
    pub key_new_from_nid-register_all :
        (evp : Evp) (oqs : Oqs) (alloc : Alloc) (nid2sn : ℕ → Option String) (propq : Option String)
        (j : ℕ) (r : NidName)
        → get_elem? (nid_names kem_encoders) j ≡ some r
        → nid2sn (o.sn2nid r.tlsname w') ≡ some r.tlsname
        → key_new_from_nid evp oqs alloc rows' nid2sn propq (o.sn2nid r.tlsname w')
          ≡ key_new evp oqs alloc (some r.oqsname) (some r.tlsname) r.keytype propq r.secbits
    unfolding key_new_from_nid get_oqsname get_keytype get_secbits
    key_new_from_nid-register_all evp oqs alloc nid2sn propq j r at back =
        rw (key_new_from_nid, back)
          (rw (get_oqsname, get_keytype, get_secbits, find_nid-register_all j r at))
