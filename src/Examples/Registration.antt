-- ===== src/Examples/Registration.antt =====
-- An OpenSSL whose table of objects is a list of identifiers with their names.
use Prim.Native.String.{String}
use text.Mathlib.Text.{◌==◌ as str_eq}
use text.Mathlib.TextEquality.{eq_iff}
use oqs_provider.Base.{
  ℕ, suc, ◌<◌, ◌==◌, ◌≡◌, refl, Bool, true, false, not, Option, none, some, List, [], ◌∷◌, arith,
  codes, if◌then◌else◌,
}
use oqs_provider.Run.{ok}
use oqs_provider.Key.New.{same_bytes}
use oqs_provider.NidTable.{NidName}
use oqs_provider.Env.{GetEnv, patch, patch_if, modify}
use oqs_provider.Provider.{
  Objects, ObjectCall, CoreEntry, core_obj_create, core_obj_add_sigid, core_get_params,
  core_gettable_params, find_functions, ContextCalls, bio_method, child_libctx, prov_ctx, at_load,
  init,
}
use oqs_provider.Provider.Oids.{oid_alg_list, patch_oids}
use oqs_provider.Provider.Registration.Init.{started, init-succeeds}
use oqs_provider.Provider.Registration.Succeeds.{Answers, new_oids, takes_all}

abbrev Table : Type 0
Table = List (String × String)

abbrev has_oid : String → Table → Bool
has_oid oid [] = false
has_oid oid (x ∷ xs) = if str_eq x.0 oid then true else has_oid oid xs

-- The number of a name: how many objects there were when it came, and 1.
abbrev nid_of : String → Table → ℕ
nid_of name [] = 0
nid_of name (x ∷ xs) = if str_eq x.1 name then suc (size xs) else nid_of name xs
  where
    size : Table → ℕ
    size [] = 0
    size (x ∷ xs) = suc (size xs)

-- What the core does with an identifier, by whether there is its object, and whether its name is taken.
abbrev created : (there taken : Bool) → String → String → Table → Bool × Table
created true taken oid name w = (true, w)
created false true oid name w = (false, w)
created false false oid name w = (true, (oid, name) ∷ w)

abbrev create : ObjectCall Table
create oid sn ln w = created (has_oid oid w) (not (nid_of sn w == 0)) oid sn w

abbrev add_sigid : ObjectCall Table
add_sigid sign digest pkey w = (true, w)

abbrev again : (taken : Bool) → String → String → Table → Table
again true oid name w = w
again false oid name w = (oid, name) ∷ w

abbrev objects : Objects Table
objects = record {
  create = λ oid sn ln w. again (not (nid_of sn w == 0)) oid sn w;
  sn2nid = nid_of;
}

self : (n : String) → str_eq n n ≡ true
self n = (eq_iff n n).1 refl

is_taken : (n : ℕ) → 0 < n → not (n == 0) ≡ true
is_taken n h = ground (arith, h)

table_answers : Answers objects create add_sigid
table_answers = record {
  is_oid = λ text. true;
  denotes = λ text oid n. str_eq oid text;
  has_object = has_oid;
  creates = created_new;
  finds = λ oid n w there. rw (there) (refl, refl);
  create_object =
      λ text oid n w other. frame_object text oid n w other (has_oid oid w) (not (nid_of n w == 0));
  create_number = λ other oid n w different.
      frame_number other oid n w different (has_oid oid w) (not (nid_of n w == 0));
  taken_object = λ text oid n w taken. rw (is_taken (nid_of n w) taken) refl;
  taken_number = λ other oid n w taken. rw (is_taken (nid_of n w) taken) refl;
  adds = λ n w known. refl;
  add_object = λ text n w. refl;
  add_number = λ other n w. refl;
}
  where
    created_new :
        (oid n : String) (w : Table)
        → true ≡ true
        → has_oid oid w ≡ false
        → nid_of n w ≡ 0
        → ((create oid n n w).0 ≡ true) × (0 < nid_of n (create oid n n w).1)
    created_new oid n w well new free = rw (new, free, self n) (refl, omega arith)

    frame_object :
        (text oid n : String) (w : Table)
        → str_eq oid text ≡ false
        → (there taken : Bool) → has_oid text (created there taken oid n w).1 ≡ has_oid text w
    frame_object text oid n w other true taken = refl
    frame_object text oid n w other false true = refl
    frame_object text oid n w other false false = rw (other) refl

    frame_number :
        (other oid n : String) (w : Table)
        → str_eq n other ≡ false
        → (there taken : Bool) → nid_of other (created there taken oid n w).1 ≡ nid_of other w
    frame_number other oid n w different true taken = refl
    frame_number other oid n w different false true = refl
    frame_number other oid n w different false false = rw (different) refl

-- The only variable is that of dilithium2.
abbrev one_variable : GetEnv
one_variable name = if same_bytes name (codes "OQS_OID_DILITHIUM2") then some "1.2.3" else none

abbrev tells : Table → Option String × Table
tells w = (some "3.2.0", w)

abbrev core_entries : List (CoreEntry Table ℕ)
core_entries =
    core_obj_create create
    ∷ core_gettable_params
    ∷ core_obj_add_sigid add_sigid
    ∷ core_get_params tells
    ∷ []

abbrev calls_succeed : ContextCalls
calls_succeed = record { method_made = true; libctx_made = true; provctx_made = true }

entries_found :
    find_functions
      (record { get_params = none; obj_create = none; obj_add_sigid = none })
      core_entries
    ≡ record { get_params = some tells; obj_create = some create; obj_add_sigid = some add_sigid }
unfolding find_functions
entries_found = refl

oids_differ :
    new_oids objects create add_sigid table_answers
      (patch_oids one_variable false (oid_alg_list false))
    ≡ true
unfolding patch_oids patch patch_if modify table_answers
oids_differ = refl

oids_taken :
    takes_all objects create add_sigid table_answers
      (patch_oids one_variable false (oid_alg_list false))
      []
    ≡ true
unfolding patch_oids patch patch_if modify table_answers
oids_taken = refl

init-succeeds_example :
    (rows : List NidName) × (w' : Table) × (init objects one_variable false
        (at_load false)
        core_entries
        calls_succeed
        []
      ≡ ok (
        started objects create add_sigid tells core_entries entries_found one_variable false
            calls_succeed [] rows,
        w',
        prov_ctx ∷ child_libctx ∷ bio_method ∷ [],
      ))
init-succeeds_example =
    init-succeeds objects create add_sigid tells core_entries entries_found one_variable false
      calls_succeed [] table_answers "3.2.0" refl oids_differ oids_taken refl refl refl
