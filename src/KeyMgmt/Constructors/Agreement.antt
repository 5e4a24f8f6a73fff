-- ===== src/KeyMgmt/Constructors/Agreement.antt =====
-- The tables of oqsprov/oqsprov.c, oqsprov/oqs_kmgmt.c and oqsprov/oqsprov_keys.c tell the same of an
-- algorithm.
use Prim.Native.String.{String}
use text.Mathlib.Text.{◌==◌ as str_eq}
use oqs_provider.Base.{
  ℕ, zero, suc, ◌≡◌, refl, true, ◌||◌, Option, none, some, List, [], ◌∷◌, get_elem?, if◌then◌else◌,
}
use oqs_provider.NidTable.{NidName, nid_names}
use oqs_provider.Provider.Algorithms.{Algorithm, Functions, keymgmt, keymgmts}
use oqs_provider.KeyMgmt.Constructors.{Arguments, arguments, Constructors, constructors}

-- The first entry of a name, and the constructors of a dispatch table.
abbrev pub find_algorithm : List Algorithm → String → Option Algorithm
find_algorithm [] name = none
find_algorithm (a ∷ as') name = if str_eq a.name name then some a else find_algorithm as' name

abbrev pub find_constructors : List Constructors → String → Option Constructors
find_constructors [] functions = none
find_constructors (c ∷ cs) functions =
    if str_eq c.functions functions then some c else find_constructors cs functions

abbrev pub without_index : Arguments → Arguments
without_index a = record a { alg_idx = none }

-- The level of security that is told of an algorithm, and what its two constructors hand on.
pub record Told : Type 0 where
  pub security_bits : ℕ
  pub new_key : Arguments
  pub gen_init : Arguments

abbrev told_by : Algorithm → Functions → Option Told
told_by a (keymgmt functions) = elim (find_constructors constructors functions) [
  | none ↦ none
  | some c ↦ some (record {
    security_bits = a.security_bits;
    new_key = without_index c.new_key;
    gen_init = without_index c.gen_init;
  })
]
told_by a _ = none

unfoldable pub told : String → Option Told
told name = elim (find_algorithm keymgmts name) [ none ↦ none | some a ↦ told_by a a.functions ]

-- Two algorithms have level 128 there and level 192 in nid_names.
abbrev pub keymgmt_level : NidName → ℕ
keymgmt_level r =
    if str_eq r.tlsname "x25519_kyber768" || str_eq r.tlsname "p256_kyber768"
    then 128
    else r.secbits

abbrev pub row_arguments : NidName → Arguments
row_arguments r = arguments r.oqsname r.tlsname r.keytype (keymgmt_level r) none

abbrev pub row_told : NidName → Told
row_told r = record {
  security_bits = keymgmt_level r;
  new_key = row_arguments r;
  gen_init = row_arguments r;
}

abbrev pub map_rows {ℓ} : {A : Type ℓ} → (NidName → A) → List NidName → List A
map_rows f [] = []
map_rows f (r ∷ rs) = f r ∷ map_rows f rs

pub map_rows-at {ℓ} :
    {A : Type ℓ} (f g : NidName → A) (rows : List NidName) (j : ℕ) (r : NidName)
    → map_rows f rows ≡ map_rows g rows
    → get_elem? rows j ≡ some r
    → f r ≡ g r
map_rows-at f g [] j r e at = absurd cc
map_rows-at f g (x ∷ rows) zero r e at = cc
map_rows-at f g (x ∷ rows) (suc j) r e at = map_rows-at f g rows j r (tails e) at
  where
    tails : f x ∷ map_rows f rows ≡ g x ∷ map_rows g rows → map_rows f rows ≡ map_rows g rows
    tails h = cc

-- Every algorithm of nid_names is in the key management table of the provider, whose dispatch table makes keys,
-- and generation contexts, of that name, kind and liboqs algorithm, with the level of security that
-- is told of it: the one of nid_names, but for x25519_kyber768 and p256_kyber768, for which it is 128.
pub told-nid_names :
    (j : ℕ) (r : NidName)
    → get_elem? (nid_names true) j ≡ some r
    → told r.tlsname ≡ some (row_told r)
unfolding told
told-nid_names j r at =
    map_rows-at (λ x. told x.tlsname) (λ x. some (row_told x)) (nid_names true) j r refl at
