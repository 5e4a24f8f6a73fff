-- ===== src/Provider.antt =====
-- oqsprov/oqsprov.c: what the provider is asked, and how it is initialised. `W` is the state of the core and
-- of OpenSSL's table of objects.
pub mod Oids
pub mod Algorithms
pub mod Codecs
pub mod Registration
pub mod Answers
use Prim.Native.String.{String}
use text.Mathlib.Text.{◌==◌ as str_eq}
use oqs_provider.Base.{
  ℕ, ◌==◌, Bool, true, false, not, ◌&&◌, Option, none, some, List, [], ◌∷◌, if◌then◌else◌,
}
use oqs_provider.Run.{Run, ok, err, ub, silent, obj_create_err, lib_create_err, ◌>>=◌, ◌>>◌, ensure}
use oqs_provider.Memory.{is_null}
use oqs_provider.NidTable.{NidName, nid_names, set_nid}
use oqs_provider.Bio.{Upcalls, Entry, no_upcalls, bio_from_dispatch}
use oqs_provider.Env.{GetEnv}
use oqs_provider.Capabilities.{Codepoints, codepoints, patch_codepoints}
use oqs_provider.Provider.Oids.{oid_alg_list, patch_oids}

-- A call that takes three texts and says whether it succeeded.
abbrev pub ObjectCall : Type 0 → Type 0
ObjectCall W = String → String → String → W → Bool × W

-- OpenSSL's table of objects: OBJ_create, whose answer is not looked at, and OBJ_sn2nid, 0 for no number.
pub record Objects (W : Type 0) : Type 0 where
  pub create : String → String → String → W → W
  pub sn2nid : String → W → ℕ

-- An entry of the core's table: one for the BIO functions, which may be unknown, or one of these. The call for
-- the core's version gives it or fails.
pub data CoreEntry (W H : Type 0) : Type 0 where
  core_bio : Entry W H → CoreEntry W H
  core_gettable_params : CoreEntry W H
  core_get_params : (W → Option String × W) → CoreEntry W H
  core_obj_create : ObjectCall W → CoreEntry W H
  core_obj_add_sigid : ObjectCall W → CoreEntry W H

pub record CoreFunctions (W : Type 0) : Type 0 where
  pub get_params : Option (W → Option String × W)
  pub obj_create : Option (ObjectCall W)
  pub obj_add_sigid : Option (ObjectCall W)

module _ {W H : Type 0} where
  abbrev bio_entries : List (CoreEntry W H) → List (Entry W H)
  bio_entries [] = []
  bio_entries (core_bio e ∷ es) = e ∷ bio_entries es
  bio_entries (core_gettable_params ∷ es) = Entry.unknown 0 ∷ bio_entries es
  bio_entries (core_get_params f ∷ es) = Entry.unknown 0 ∷ bio_entries es
  bio_entries (core_obj_create f ∷ es) = Entry.unknown 0 ∷ bio_entries es
  bio_entries (core_obj_add_sigid f ∷ es) = Entry.unknown 0 ∷ bio_entries es

  -- The loop over the table: the last entry of a kind counts.
  unfoldable pub find_functions : CoreFunctions W → List (CoreEntry W H) → CoreFunctions W
  find_functions fs [] = fs
  find_functions fs (core_bio e ∷ es) = find_functions fs es
  find_functions fs (core_gettable_params ∷ es) = find_functions fs es
  find_functions fs (core_get_params f ∷ es) = find_functions (record fs { get_params = some f }) es
  find_functions fs (core_obj_create f ∷ es) = find_functions (record fs { obj_create = some f }) es
  find_functions fs (core_obj_add_sigid f ∷ es) =
      find_functions (record fs { obj_add_sigid = some f }) es

module _ {W : Type 0} (o : Objects W) (obj_create obj_add_sigid : ObjectCall W) where
  -- The second OBJ_create, which core version 3.1.0 is spared: `strcmp` needs a version.
  abbrev create_again : (version : Option String) → (oid name : String) → W → Run W
  create_again none oid name w = ub
  create_again (some v) oid name w =
      ok (if not (str_eq "3.1.0" v) then o.create oid name name w else w)

  -- The body of the loop over the object identifiers.
  unfoldable pub register_one :
      (version : Option String) → (oid name : String) → List NidName → W → Run (List NidName × W)
  register_one version oid name rows w = do
    let made = obj_create oid name name w
    ensure made.0 obj_create_err
    w' ← create_again version oid name made.1
    let set = set_nid rows name (o.sn2nid name w')
    ensure set.1 obj_create_err
    let added = obj_add_sigid name "" name w'
    ensure added.0 obj_create_err
    ensure (not (o.sn2nid name added.1 == 0)) obj_create_err
    ok (set.0, added.1)

  -- The loop takes two elements at a time.
  unfoldable pub register_all :
      (version : Option String) → List String → List NidName → W → Run (List NidName × W)
  unfolding register_one
  register_all version [] rows w = ok (rows, w)
  register_all version (oid ∷ []) rows w = ub
  register_all version (oid ∷ name ∷ list) rows w = do
    r ← register_one version oid name rows w
    register_all version list r.0 r.1

-- What the last part of the initialisation makes, and whether its calls succeed.
pub data Resource : Type 0 where
  bio_method child_libctx prov_ctx : Resource

pub record ContextCalls : Type 0 where
  pub method_made : Bool
  pub libctx_made : Bool
  pub provctx_made : Bool

-- Whether the context was made, and what is allocated when the initialisation returns: where it was not, the
-- library context is freed, and the method is not.
unfoldable pub make_context : ContextCalls → Bool × List Resource
make_context calls =
    if not calls.method_made
    then (false, [])
    else (if not (calls.libctx_made && calls.provctx_made)
        then (false, bio_method ∷ [])
        else (true, prov_ctx ∷ child_libctx ∷ bio_method ∷ []))

-- oqsx_freeprovctx, of oqsprov/oqsprov_keys.c, which oqsprovider_teardown calls.
abbrev pub free_prov_ctx : List Resource
free_prov_ctx = child_libctx ∷ bio_method ∷ prov_ctx ∷ []

-- The static data that the initialisation changes.
pub record Statics (W H : Type 0) : Type 0 where
  pub upcalls : Upcalls W H
  pub codepoints : Codepoints
  pub oids : List String
  pub rows : List NidName
  pub get_params : Option (W → Option String × W)

-- As they are when the library is loaded.
abbrev pub at_load : {W H : Type 0} → (kem_encoders : Bool) → Statics W H
at_load kem_encoders = record {
  upcalls = no_upcalls;
  codepoints = codepoints;
  oids = oid_alg_list kem_encoders;
  rows = nid_names kem_encoders;
  get_params = none;
}

module _ {W H : Type 0} (o : Objects W) where
  -- From the functions of the core on: without one of them nothing is registered.
  unfoldable pub init_with :
      CoreFunctions W → Statics W H → ContextCalls → W → Run (Statics W H × W × List Resource)
  unfolding register_all make_context
  init_with fs s calls w = elim fs.obj_create [
    | none ↦ err silent
    | some obj_create ↦ elim fs.obj_add_sigid [
      | none ↦ err silent
      | some obj_add_sigid ↦ elim fs.get_params [
        | none ↦ err silent
        | some get_params ↦ do
          let asked = get_params w
          r ← register_all o obj_create obj_add_sigid asked.0 s.oids s.rows asked.1
          let made = make_context calls
          ensure made.0 lib_create_err
          ok (record s { rows = r.0 }, r.1, made.1)
      ]
    ]
  ]

  -- OSSL_provider_init, without the environment that is only printed. A failure is told without the state
  -- that it leaves.
  unfoldable pub init :
      GetEnv
      → (kem_encoders : Bool) → Statics W H
      → List (CoreEntry W H)
      → ContextCalls
      → W
      → Run (Statics W H × W × List Resource)
  unfolding init_with find_functions patch_oids patch_codepoints bio_from_dispatch
  init getenv kem_encoders s entries calls w =
      let fs =
        find_functions
          (record { get_params = s.get_params; obj_create = none; obj_add_sigid = none }) entries in
      init_with fs
        (record {
          upcalls = bio_from_dispatch s.upcalls (bio_entries entries);
          codepoints = patch_codepoints getenv s.codepoints;
          oids = patch_oids getenv kem_encoders s.oids;
          rows = s.rows;
          get_params = fs.get_params;
        })
        calls w
