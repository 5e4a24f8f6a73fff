-- ===== src/Examples/Provider.antt =====
-- The provider with the environment empty, or with two variables, and an OpenSSL whose numbers are the
-- places of the names.
use Prim.Native.String.{String}
use text.Mathlib.Text.{◌==◌ as str_eq}
use text.Mathlib.TextEquality.{eq_iff}
use oqs_provider.Base.{
  ℕ, zero, suc, ◌<◌, ◌≡◌, refl, sym, ◌∙◌, Bool, true, false, Option, none, some, List, [], ◌∷◌,
  arith, codes, if◌then◌else◌,
}
use oqs_provider.Run.{ok}
use oqs_provider.Extern.{Evp, Oqs, dilithium_2, kyber_768}
use oqs_provider.Key.{OqsxKey, hyb_sig, ecx_hyb_kem}
use oqs_provider.Key.New.{key_new, same_bytes}
use oqs_provider.Key.New.Total.{HasAll, is_classical, is_sig_name, key_new-nid_names}
use oqs_provider.Key.Decode.{key_new_from_nid}
use oqs_provider.NidTable.{NidName, nid_names, set_nid}
use oqs_provider.Env.{GetEnv, patch, patch_if}
use oqs_provider.Provider.{
  Objects, ObjectCall, CoreEntry, core_obj_create, core_obj_add_sigid, core_get_params,
  core_gettable_params, find_functions, register_one, register_all, ContextCalls, make_context,
  bio_method, child_libctx, prov_ctx, at_load, init, init_with,
}
use oqs_provider.Provider.Oids.{oid_alg_list, patch_oids}
use oqs_provider.Provider.Oids.Patched.{described, patch_oids-described}
use oqs_provider.Provider.Registration.{KeepsNumbers, all_numbered}
use oqs_provider.Provider.Registration.Init.{started, key_new_from_nid-init}
use oqs_provider.KeyMgmt.Constructors.Agreement.{told, row_told, told-nid_names}
use oqs_provider.Provider.Codecs.{encoder_table, decoder_table}
use oqs_provider.Provider.Codecs.Complete.{
  encoders_named, decoders_named, encoders_for, decoders_for, offered-nid_names,
}
use oqs_provider.Capabilities.{Params, codepoints, patch_codepoints, get_capabilities}
use oqs_provider.Capabilities.Offered.{answer, offered, get_capabilities-offered}
use oqs_provider.Examples.Toy.{toy_evp, toy_oqs, toy_sig, toy_kem, always}

abbrev no_env : GetEnv
no_env name = none

-- The only variable is that of dilithium2.
abbrev one_oid : GetEnv
one_oid name = if same_bytes name (codes "OQS_OID_DILITHIUM2") then some "1.2.3" else none

patch_oids-described_example :
    patch_oids one_oid false (oid_alg_list false) ≡ described one_oid (oid_alg_list false)
patch_oids-described_example = patch_oids-described one_oid false

-- The place of a name in a list, from 1 on.
abbrev up : ℕ → ℕ
up zero = 0
up (suc n) = suc (suc n)

abbrev place : List String → String → ℕ
place [] name = 0
place (x ∷ xs) name = if str_eq x name then 1 else up (place xs name)

up_inverse : (m n : ℕ) → 0 < up m → up m ≡ up n → (0 < m) × (m ≡ n)
up_inverse zero n positive e = absurd (omega (arith, positive))
up_inverse (suc m) zero positive e = absurd (omega (arith, e))
up_inverse (suc m) (suc n) positive e = (omega arith, omega (arith, e))

one_up : (n : ℕ) → 1 ≡ up n → ⊥
one_up zero e = omega (arith, e)
one_up (suc n) e = omega (arith, e)

place-distinct :
    (xs : List String) (a b : String) → 0 < place xs a → place xs a ≡ place xs b → a ≡ b
place-distinct [] a b positive e = absurd (omega (arith, positive))
place-distinct (x ∷ xs) a b positive e =
    go (place-distinct xs a b) (str_eq x a) (str_eq x b) refl refl positive e
  where
    go :
        (0 < place xs a → place xs a ≡ place xs b → a ≡ b)
        → (p q : Bool) → str_eq x a ≡ p
        → str_eq x b ≡ q
        → 0 < (if p then 1 else up (place xs a))
        → (if p then 1 else up (place xs a)) ≡ (if q then 1 else up (place xs b))
        → a ≡ b
    go rest true true xa xb h e = sym ((eq_iff x a).0 xa) ∙ (eq_iff x b).0 xb
    go rest true false xa xb h e = absurd (one_up _ e)
    go rest false true xa xb h e = absurd (one_up _ (sym e))
    go rest false false xa xb h e =
        let found = up_inverse (place xs a) (place xs b) h e in rest found.0 found.1

-- Nothing changes OpenSSL's table, in which the names of the signatures have their places for numbers.
abbrev names : List String → List String
names (oid ∷ name ∷ list) = name ∷ names list
names list = []

abbrev by_place : Objects (Unit {0})
by_place = record {
  create = λ oid sn ln w. w;
  sn2nid = λ name w. place (names (oid_alg_list false)) name;
}

abbrev accept : ObjectCall (Unit {0})
accept a b c w = (true, w)

by_place-KeepsNumbers : KeepsNumbers by_place accept accept
by_place-KeepsNumbers = record {
  create_keeps = λ name oid n w positive. refl;
  obj_create_keeps = λ name oid n w positive. refl;
  add_sigid_keeps = λ name n w. refl;
  distinct = λ a b w positive e. place-distinct (names (oid_alg_list false)) a b positive e;
}

abbrev registered_rows : List NidName
registered_rows = all_numbered by_place accept accept tt (nid_names false)

-- A core of version 3.2.0, whose table has the three functions, with another entry between them.
abbrev tells_version : Unit {0} → Option String × Unit {0}
tells_version w = (some "3.2.0", w)

abbrev core_table : List (CoreEntry (Unit {0}) ℕ)
core_table =
    core_obj_create accept
    ∷ core_gettable_params
    ∷ core_obj_add_sigid accept
    ∷ core_get_params tells_version
    ∷ []

abbrev all_made : ContextCalls
all_made = record { method_made = true; libctx_made = true; provctx_made = true }

functions_found :
    find_functions
      (record { get_params = none; obj_create = none; obj_add_sigid = none })
      core_table
    ≡ record {
      get_params = some tells_version;
      obj_create = some accept;
      obj_add_sigid = some accept;
    }
unfolding find_functions
functions_found = refl

initialised :
    init by_place no_env false (at_load false) core_table all_made tt
    ≡ ok (
      started by_place accept accept tells_version core_table functions_found no_env false all_made
          tt registered_rows,
      tt,
      prov_ctx ∷ child_libctx ∷ bio_method ∷ [],
    )
unfolding init init_with make_context find_functions register_all register_one set_nid patch_oids
    patch patch_if
initialised = refl

abbrev p256_dilithium2 : NidName
p256_dilithium2 = record {
  nid = 0;
  tlsname = "p256_dilithium2";
  oqsname = dilithium_2;
  keytype = hyb_sig;
  secbits = 128;
}

key_new_from_nid-init_example :
    key_new_from_nid toy_evp toy_oqs always registered_rows (λ n. some "p256_dilithium2") none 2
    ≡ key_new toy_evp toy_oqs always (some dilithium_2) (some "p256_dilithium2") hyb_sig none 128
key_new_from_nid-init_example =
    key_new_from_nid-init by_place accept accept tells_version core_table functions_found no_env
      false all_made tt by_place-KeepsNumbers
      (started by_place accept accept tells_version core_table functions_found no_env false all_made
        tt registered_rows)
      tt (prov_ctx ∷ child_libctx ∷ bio_method ∷ []) initialised toy_evp toy_oqs always
      (λ n. some "p256_dilithium2") none 1 p256_dilithium2 refl refl

-- An OpenSSL without contexts for anything else, and a liboqs whose two families have their own names.
abbrev strict_evp : Evp
strict_evp = record toy_evp { param_ctx = is_classical }

abbrev strict_oqs : Oqs
strict_oqs = record toy_oqs {
  sig_new = λ name. if is_sig_name name then some toy_sig else none;
  kem_new = λ name. if is_sig_name name then none else some toy_kem;
}

strict-HasAll : HasAll strict_evp strict_oqs always
strict-HasAll = record {
  key_allocated = refl;
  ctx_allocated = refl;
  param_ctx = λ type nid real. real;
  sigs = λ name is_sig. (toy_sig, rw (is_sig) refl);
  kems = λ name is_kem. (toy_kem, rw (is_kem) refl);
}

key_new-nid_names_example :
    (key : OqsxKey (strict_evp.Pkey)) × (key_new strict_evp strict_oqs always
        (some dilithium_2)
        (some "p256_dilithium2")
        hyb_sig
        none
        128
      ≡ ok key)
key_new-nid_names_example =
    key_new-nid_names strict_evp strict_oqs always strict-HasAll false 1 p256_dilithium2 refl

abbrev x25519_kyber768 : NidName
x25519_kyber768 = record {
  nid = 0;
  tlsname = "x25519_kyber768";
  oqsname = kyber_768;
  keytype = ecx_hyb_kem;
  secbits = 192;
}

told-nid_names_example : told "x25519_kyber768" ≡ some (row_told x25519_kyber768)
told-nid_names_example = told-nid_names 22 x25519_kyber768 refl

offered-nid_names_example :
    (encoders_named true (encoder_table true) "x25519_kyber768" ≡ encoders_for x25519_kyber768)
    × (decoders_named true (decoder_table true) "x25519_kyber768" ≡ decoders_for x25519_kyber768)
offered-nid_names_example = offered-nid_names true 22 x25519_kyber768 refl

-- A callback that counts, and takes two entries.
abbrev two_at_most : Params → ℕ → Bool × ℕ
two_at_most p zero = (true, 1)
two_at_most p (suc zero) = (true, 2)
two_at_most p n = (false, n)

get_capabilities-offered_example :
    get_capabilities two_at_most true (patch_codepoints one_oid codepoints) "tls-group" 0
    ≡ ok (answer one_oid two_at_most (offered one_oid true "tls-group") 0)
get_capabilities-offered_example = get_capabilities-offered one_oid two_at_most true "tls-group" 0
