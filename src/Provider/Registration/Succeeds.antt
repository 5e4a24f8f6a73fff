-- ===== src/Provider/Registration/Succeeds.antt =====
-- Registration with a core that answers.
use Prim.Native.String.{String}
use text.Mathlib.Text.{◌==◌ as str_eq}
use oqs_provider.Base.{
  ℕ, ◌<◌, ◌==◌, ◌≡◌, refl, sym, ap, ◌∙◌, subst, Bool, true, false, not, ◌&&◌, some, List, [], ◌∷◌,
  arith, if◌then◌else◌, Bool-cases, inl, inr,
}
use oqs_provider.Run.{ok}
use oqs_provider.NidTable.{NidName, nid_names, set_nid}
use oqs_provider.Env.{GetEnv}
use oqs_provider.Provider.{Objects, ObjectCall, register_one, register_all}
use oqs_provider.Provider.Oids.{oid_alg_list, patch_oids}
use oqs_provider.Provider.Oids.Patched.{patch_oids-described, described}
use oqs_provider.Provider.Registration.Names.{both_true}

abbrev has_name : List NidName → String → Bool
has_name [] name = false
has_name (r ∷ rs) name = if str_eq r.tlsname name then true else has_name rs name

-- Every name stands in the table.
abbrev all_listed : List NidName → List String → Bool
all_listed rows [] = true
all_listed rows (oid ∷ []) = false
all_listed rows (oid ∷ name ∷ list) = has_name rows name && all_listed rows list

set_nid-found :
    (rows : List NidName) (name : String) (n : ℕ) → (set_nid rows name n).1 ≡ has_name rows name
unfolding set_nid
set_nid-found [] name n = refl
set_nid-found (r ∷ rows) name n = elim (Bool-cases (str_eq r.tlsname name)) [
  | inl same ↦ rw (same) refl
  | inr different ↦ rw (different) (set_nid-found rows name n)
]

set_nid-names :
    (rows : List NidName) (name : String) (n : ℕ) (other : String)
    → has_name (set_nid rows name n).0 other ≡ has_name rows other
unfolding set_nid
set_nid-names [] name n other = refl
set_nid-names (r ∷ rows) name n other = elim (Bool-cases (str_eq r.tlsname name)) [
  | inl same ↦ rw (same) refl
  | inr different ↦
      rw (different)
        (ap (λ b. if str_eq r.tlsname other then true else b) (set_nid-names rows name n other))
]

set_nid-listed :
    (rows : List NidName) (name : String) (n : ℕ) (list : List String)
    → all_listed (set_nid rows name n).0 list ≡ all_listed rows list
set_nid-listed rows name n [] = refl
set_nid-listed rows name n (oid ∷ []) = refl
set_nid-listed rows name n (oid ∷ other ∷ list) =
    rw (set_nid-names rows name n other, set_nid-listed rows name n list) refl

-- The name is not among those of a list.
abbrev new_name : String → List String → Bool
new_name name [] = true
new_name name (oid ∷ []) = true
new_name name (oid ∷ other ∷ list) = not (str_eq name other) && new_name name list

abbrev new_names : List String → Bool
new_names [] = true
new_names (oid ∷ []) = true
new_names (oid ∷ name ∷ list) = new_name name list && new_names list

module _ {W : Type 0} (o : Objects W) (obj_create obj_add_sigid : ObjectCall W) where
  -- OpenSSL's table of objects, where its allocations succeed: whether a text is an identifier that OBJ_create
  -- can read, whether it denotes the object with an identifier and a name, and whether it denotes an object
  -- that there is. The core's call creates an object that is new and whose name is new, and reports success
  -- without a change for one that there is. OBJ_create changes nothing when the name is taken, and a
  -- signature algorithm is added for a name that has a number.
  pub record Answers : Type 0 where
    pub is_oid : String → Bool
    pub denotes : (text oid n : String) → Bool
    pub has_object : String → W → Bool
    pub creates :
        (oid n : String) (w : W)
        → is_oid oid ≡ true
        → has_object oid w ≡ false
        → o.sn2nid n w ≡ 0
        → ((obj_create oid n n w).0 ≡ true) × (0 < o.sn2nid n (obj_create oid n n w).1)
    pub finds :
        (oid n : String) (w : W)
        → has_object oid w ≡ true
        → ((obj_create oid n n w).0 ≡ true) × (o.sn2nid n (obj_create oid n n w).1 ≡ o.sn2nid n w)
    pub create_object :
        (text oid n : String) (w : W)
        → denotes text oid n ≡ false
        → has_object text (obj_create oid n n w).1 ≡ has_object text w
    pub create_number :
        (other oid n : String) (w : W)
        → str_eq n other ≡ false
        → o.sn2nid other (obj_create oid n n w).1 ≡ o.sn2nid other w
    pub taken_object :
        (text oid n : String) (w : W)
        → 0 < o.sn2nid n w
        → has_object text (o.create oid n n w) ≡ has_object text w
    pub taken_number :
        (other oid n : String) (w : W)
        → 0 < o.sn2nid n w
        → o.sn2nid other (o.create oid n n w) ≡ o.sn2nid other w
    pub adds : (n : String) (w : W) → 0 < o.sn2nid n w → (obj_add_sigid n "" n w).0 ≡ true
    pub add_object :
        (text n : String) (w : W) → has_object text (obj_add_sigid n "" n w).1 ≡ has_object text w
    pub add_number :
        (other n : String) (w : W) → o.sn2nid other (obj_add_sigid n "" n w).1 ≡ o.sn2nid other w

  is_number : (n : ℕ) → 0 < n → not (n == 0) ≡ true
  is_number n h = ground (arith, h)

  module _ (answers : Answers) where
    open answers use {is_oid, denotes, has_object}

    -- No identifier of the list denotes the object with this identifier and name.
    abbrev pub new_oid : (oid n : String) → List String → Bool
    new_oid oid n [] = true
    new_oid oid n (other ∷ []) = true
    new_oid oid n (other ∷ name ∷ list) = not (denotes other oid n) && new_oid oid n list

    -- No two identifiers of the list denote one object.
    abbrev pub new_oids : List String → Bool
    new_oids [] = true
    new_oids (oid ∷ []) = true
    new_oids (oid ∷ n ∷ list) = new_oid oid n list && new_oids list

    -- The table takes an identifier with a name: either both are new, or both are there.
    abbrev pub takes : (oid n : String) → W → Bool
    takes oid n w =
        is_oid oid && (if has_object oid w then not (o.sn2nid n w == 0) else o.sn2nid n w == 0)

    abbrev pub takes_all : List String → W → Bool
    takes_all [] w = true
    takes_all (oid ∷ []) w = true
    takes_all (oid ∷ n ∷ list) w = takes oid n w && takes_all list w

    same_test :
        (a : Bool) (x y : Bool) (m n : ℕ)
        → x ≡ y
        → m ≡ n
        → (a && (if x then not (m == 0) else m == 0)) ≡ true
        → (a && (if y then not (n == 0) else n == 0)) ≡ true
    same_test a x y m n p q e = rw (← p, ← q) e

    false_of : (b : Bool) → not b ≡ true → b ≡ false
    false_of true e = absurd cc
    false_of false e = refl

    -- What the table takes, it takes after a change that is about another object.
    takes_all-other :
        (oid n : String) (w w' : W)
        → ((text : String) → denotes text oid n ≡ false → has_object text w' ≡ has_object text w)
        → ((other : String) → str_eq n other ≡ false → o.sn2nid other w' ≡ o.sn2nid other w)
        → (list : List String) → new_oid oid n list ≡ true
        → new_name n list ≡ true
        → takes_all list w ≡ true
        → takes_all list w' ≡ true
    takes_all-other oid n w w' objects numbers [] a b t = refl
    takes_all-other oid n w w' objects numbers (x ∷ []) a b t = refl
    takes_all-other oid n w w' objects numbers (x ∷ name ∷ list) a b t =
        let olds = both_true (not (denotes x oid n)) _ a in
        let news = both_true (not (str_eq n name)) _ b in
        let ts = both_true (takes x name w) _ t in
        both
          (same_test (is_oid x) (has_object x w) (has_object x w') (o.sn2nid name w)
            (o.sn2nid name w') (sym (objects x (false_of _ olds.0)))
            (sym (numbers name (false_of _ news.0))) ts.0)
          (takes_all-other oid n w w' objects numbers list olds.1 news.1 ts.1)
      where
        both : {a b : Bool} → a ≡ true → b ≡ true → (a && b) ≡ true
        both p q = rw (p, q) refl

    positive : (n : ℕ) → not (n == 0) ≡ true → 0 < n
    positive n e = ground (arith, e)

    is_zero : (n : ℕ) → (n == 0) ≡ true → n ≡ 0
    is_zero n e = ground (arith, e)

    -- Whether it is new or there, the name has a number after the core's call.
    obj_create-takes :
        (oid n : String) (w : W)
        → takes oid n w ≡ true
        → ((obj_create oid n n w).0 ≡ true) × (0 < o.sn2nid n (obj_create oid n n w).1)
    obj_create-takes oid n w taken =
        let tests = both_true (is_oid oid) _ taken in
        elim (Bool-cases (has_object oid w)) [
          | inl there ↦
              let found = answers.finds oid n w there in
              (
                found.0,
                subst (λ k. 0 < k) (sym found.1)
                    (positive _ (
                      ap (λ b. if b then not (o.sn2nid n w == 0) else o.sn2nid n w == 0) (sym there)
                      ∙ tests.1)),
              )
          | inr new ↦ answers.creates oid n w tests.0 new (
              is_zero _ (
                ap (λ b. if b then not (o.sn2nid n w == 0) else o.sn2nid n w == 0) (sym new)
                ∙ tests.1))
        ]

    module _ (v : String) where
      again : (oid n : String) → W → W
      again oid n w = if not (str_eq "3.1.0" v) then o.create oid n n w else w

      again_object :
          (text oid n : String) (w : W)
          → 0 < o.sn2nid n w
          → has_object text (again oid n w) ≡ has_object text w
      unfolding again
      again_object text oid n w taken = elim (Bool-cases (not (str_eq "3.1.0" v))) [
        | inl differs ↦ rw (differs) (answers.taken_object text oid n w taken)
        | inr same ↦ rw (same) refl
      ]

      again_number :
          (other oid n : String) (w : W)
          → 0 < o.sn2nid n w
          → o.sn2nid other (again oid n w) ≡ o.sn2nid other w
      unfolding again
      again_number other oid n w taken = elim (Bool-cases (not (str_eq "3.1.0" v))) [
        | inl differs ↦ rw (differs) (answers.taken_number other oid n w taken)
        | inr same ↦ rw (same) refl
      ]

      -- The object table after a round.
      after : (oid n : String) → W → W
      after oid n w = (obj_add_sigid n "" n (again oid n (obj_create oid n n w).1)).1

      number : (oid n : String) → W → ℕ
      number oid n w = o.sn2nid n (again oid n (obj_create oid n n w).1)

      number-takes : (oid n : String) (w : W) → takes oid n w ≡ true → 0 < number oid n w
      unfolding number
      number-takes oid n w taken =
          let made = obj_create-takes oid n w taken in
          subst (λ k. 0 < k) (sym (again_number n oid n _ made.1)) made.1

      register_one-succeeds :
          (oid n : String) (rows : List NidName) (w : W)
          → takes oid n w ≡ true
          → has_name rows n ≡ true
          → register_one o obj_create obj_add_sigid (some v) oid n rows w
            ≡ ok ((set_nid rows n (number oid n w)).0, after oid n w)
      unfolding register_one again after number
      register_one-succeeds oid n rows w taken listed =
          let known = number-takes oid n w taken in
          rw
            (
              (obj_create-takes oid n w taken).0,
              set_nid-found rows n (o.sn2nid n (again oid n (obj_create oid n n w).1)),
              listed,
              answers.adds n (again oid n (obj_create oid n n w).1) known,
              answers.add_number n n (again oid n (obj_create oid n n w).1),
              is_number _ known,
            )
            refl

      after-takes :
          (oid n : String) (w : W) (list : List String)
          → takes oid n w ≡ true
          → new_oid oid n list ≡ true
          → new_name n list ≡ true
          → takes_all list w ≡ true
          → takes_all list (after oid n w) ≡ true
      unfolding after
      after-takes oid n w list taken =
          let made = obj_create-takes oid n w taken in
          takes_all-other oid n w _
            (λ text other.
              answers.add_object text n _
              ∙ again_object text oid n _ made.1
              ∙ answers.create_object text oid n w other)
            (λ name other.
              answers.add_number name n _
              ∙ again_number name oid n _ made.1
              ∙ answers.create_number name oid n w other)
            list

      register_all-listed :
          (list : List String) (rows : List NidName) (w : W)
          → all_listed rows list ≡ true
          → new_names list ≡ true
          → new_oids list ≡ true
          → takes_all list w ≡ true
          → (out : List NidName × W) × (register_all o obj_create obj_add_sigid (some v) list rows w
              ≡ ok out)
      unfolding register_all
      register_all-listed [] rows w listed names oids taken = ((rows, w), refl)
      register_all-listed (oid ∷ []) rows w listed names oids taken = absurd cc
      register_all-listed (oid ∷ n ∷ list) rows w listed names oids taken =
          let in_rows = both_true (has_name rows n) _ listed in
          let new = both_true (new_name n list) _ names in
          let apart = both_true (new_oid oid n list) _ oids in
          let here = both_true (takes oid n w) _ taken in
          let rest =
            register_all-listed list (set_nid rows n (number oid n w)).0 (after oid n w)
              (set_nid-listed rows n (number oid n w) list ∙ in_rows.1) new.1 apart.1
              (after-takes oid n w list here.0 apart.0 new.0 here.1) in
          (rest.0, rw (register_one-succeeds oid n rows w here.0 in_rows.0) rest.1)

      -- Where the table takes the patched identifiers with their names, and no two of them denote one
      -- object, the registration succeeds, with or without the KEMs: every name of the list is in the table
      -- of the provider, and none is there twice.
      pub register_all-succeeds :
          (getenv : GetEnv) (kem_encoders : Bool) (w : W)
          → let list = patch_oids getenv kem_encoders (oid_alg_list kem_encoders) in
            new_oids list ≡ true
            → takes_all list w ≡ true
            → (out : List NidName × W) × (register_all o obj_create obj_add_sigid
                  (some v)
                  list
                  (nid_names kem_encoders)
                  w
                ≡ ok out)
      register_all-succeeds getenv kem_encoders w oids taken =
          register_all-listed _ (nid_names kem_encoders) w
            (ap (all_listed (nid_names kem_encoders)) (patch_oids-described getenv kem_encoders)
              ∙ all_there kem_encoders)
            (ap new_names (patch_oids-described getenv kem_encoders) ∙ all_new kem_encoders) oids
            taken
        where
          all_there :
              (kem_encoders : Bool)
              → all_listed (nid_names kem_encoders) (described getenv (oid_alg_list kem_encoders))
                ≡ true
          all_there true = refl
          all_there false = refl

          all_new :
              (kem_encoders : Bool)
              → new_names (described getenv (oid_alg_list kem_encoders)) ≡ true
          all_new true = refl
          all_new false = refl
