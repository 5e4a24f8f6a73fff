-- ===== src/Provider/Registration/Init.antt =====
-- OSSL_provider_init of oqsprov/oqsprov.c as a whole, from the static data that the library is loaded with.
use Prim.Native.String.{String}
use oqs_provider.Base.{ℕ, ◌≡◌, refl, Bool, true, Option, none, some, List, [], ◌∷◌, get_elem?}
use oqs_provider.Run.{ok, ensure, lib_create_err, Post, Post_ok, Post-bind}
use oqs_provider.Extern.{Evp, Oqs, Alloc}
use oqs_provider.Key.New.{key_new}
use oqs_provider.Key.Decode.{key_new_from_nid}
use oqs_provider.NidTable.{NidName, nid_names}
use oqs_provider.Env.{GetEnv}
use oqs_provider.Bio.{no_upcalls, bio_from_dispatch}
use oqs_provider.Capabilities.{codepoints, patch_codepoints}
use oqs_provider.Provider.{
  Objects, ObjectCall, CoreEntry, find_functions, bio_entries, register_all, ContextCalls,
  make_context, Resource, bio_method, child_libctx, prov_ctx, Statics, at_load, init_with, init,
}
use oqs_provider.Provider.Oids.{oid_alg_list, patch_oids}
use oqs_provider.Provider.Registration.{KeepsNumbers}
use oqs_provider.Provider.Registration.Getters.{key_new_from_nid-register_all}
use oqs_provider.Provider.Registration.Succeeds.{
  Answers, new_oids, takes_all, register_all-succeeds,
}

module _ {W H : Type 0} (o : Objects W) (obj_create obj_add_sigid : ObjectCall W)
    (get_params : W → Option String × W) (entries : List (CoreEntry W H))
    (found : find_functions
        (record { get_params = none; obj_create = none; obj_add_sigid = none })
        entries
      ≡ record {
        get_params = some get_params;
        obj_create = some obj_create;
        obj_add_sigid = some obj_add_sigid;
      })
    (getenv : GetEnv) (kem_encoders : Bool) (calls : ContextCalls) (w : W) where
  -- The static data after the initialisation.
  abbrev pub started : List NidName → Statics W H
  started rows = record {
    upcalls = bio_from_dispatch no_upcalls (bio_entries entries);
    codepoints = patch_codepoints getenv codepoints;
    oids = patch_oids getenv kem_encoders (oid_alg_list kem_encoders);
    rows = rows;
    get_params = some get_params;
  }

  -- With a core whose table has the three functions that are needed and that tells its version, where the
  -- calls for the provider's context succeed, and where OpenSSL's table of objects takes the identifiers
  -- of the algorithms, patched from the environment, with their names: the identifier is one that it
  -- can read, the identifier and the name are both new or both there, and no two of the identifiers
  -- denote one object. Then OSSL_provider_init succeeds, with or without the KEMs: it keeps what it found
  -- in the core's table and patched from the environment, and has made the provider's context, the
  -- library context and the BIO method.
  pub init-succeeds :
      (answers : Answers o obj_create obj_add_sigid)
      → (v : String) → (get_params w).0 ≡ some v
      → let list = patch_oids getenv kem_encoders (oid_alg_list kem_encoders) in
        new_oids o obj_create obj_add_sigid answers list ≡ true
        → takes_all o obj_create obj_add_sigid answers list (get_params w).1 ≡ true
        → calls.method_made ≡ true
        → calls.libctx_made ≡ true
        → calls.provctx_made ≡ true
        → (rows : List NidName) × (w' : W) × (init o getenv kem_encoders
              (at_load kem_encoders)
              entries
              calls
              w
            ≡ ok (started rows, w', prov_ctx ∷ child_libctx ∷ bio_method ∷ []))
  unfolding init init_with make_context
  init-succeeds answers v version oids taken method libctx provctx =
      let registered =
        register_all-succeeds o obj_create obj_add_sigid answers v getenv kem_encoders
          (get_params w).1 oids taken in
      (
        registered.0.0,
        registered.0.1,
        rw (found) (rw (version) (rw (registered.1) (rw (method, libctx, provctx) refl))),
      )

  -- After OSSL_provider_init succeeded, from the static data of load time, with or without the KEMs and whatever
  -- the environment holds, a key that is made from the number of an algorithm of the table is the one that its
  -- row by name describes: when OpenSSL's table of objects keeps different numbers for different names
  -- and gives the name back for the number.
  pub key_new_from_nid-init :
      KeepsNumbers o obj_create obj_add_sigid
      → (s' : Statics W H) (w' : W) (made : List Resource)
      → init o getenv kem_encoders (at_load kem_encoders) entries calls w ≡ ok (s', w', made)
      → (evp : Evp) (oqs : Oqs) (alloc : Alloc) (nid2sn : ℕ → Option String) (propq : Option String)
        (j : ℕ) (r : NidName)
      → get_elem? (nid_names kem_encoders) j ≡ some r
      → nid2sn (o.sn2nid r.tlsname w') ≡ some r.tlsname
      → key_new_from_nid evp oqs alloc s'.rows nid2sn propq (o.sn2nid r.tlsname w')
        ≡ key_new evp oqs alloc (some r.oqsname) (some r.tlsname) r.keytype propq r.secbits
  unfolding init init_with
  key_new_from_nid-init laws s' w' made succeeded evp oqs alloc nid2sn propq j r at back =
      Post_ok Described (init o getenv kem_encoders (at_load kem_encoders) entries calls w)
        described succeeded back
    where
      Described : Statics W H × W × List Resource → Type 0
      Described (s, w2, made2) =
          nid2sn (o.sn2nid r.tlsname w2) ≡ some r.tlsname
          → key_new_from_nid evp oqs alloc s.rows nid2sn propq (o.sn2nid r.tlsname w2)
            ≡ key_new evp oqs alloc (some r.oqsname) (some r.tlsname) r.keytype propq r.secbits

      described : Post Described (init o getenv kem_encoders (at_load kem_encoders) entries calls w)
      described = rw (found) (
          Post-bind Described
            (register_all o obj_create obj_add_sigid (get_params w).0
              (patch_oids getenv kem_encoders (oid_alg_list kem_encoders)) (nid_names kem_encoders)
              (get_params w).1)
            _
            (λ out registered.
              Post-bind Described (ensure (make_context calls).0 lib_create_err) _ (λ resources e.
                key_new_from_nid-register_all o obj_create obj_add_sigid laws (get_params w).0
                  getenv kem_encoders (get_params w).1 out.1 out.0 registered evp oqs alloc nid2sn
                  propq j r at)))
