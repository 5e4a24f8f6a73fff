-- ===== src/Provider/Registration.antt =====
-- What the registration of the object identifiers leaves in the table of names.
pub mod Names
pub mod Getters
pub mod Succeeds
pub mod Init
use Prim.Native.String.{String}
use text.Mathlib.Text.{◌==◌ as str_eq}
use text.Mathlib.TextEquality.{eq_iff}
use oqs_provider.Base.{
  ℕ, zero, suc, ◌<◌, ◌==◌, ◌≡◌, refl, sym, ap, ◌∙◌, subst, Bool, true, false, not, ◌&&◌, Option,
  none, some, List, [], ◌∷◌, ◌++◌, append_assoc, append-nil, get_elem?, arith, ==_iff, equal,
  Bool-cases, inl, inr, if◌then◌else◌,
}
use oqs_provider.Run.{
  Run, ok, err, ub, ok_injective, Post, Post-bind, Post-chain, ensure, ensure-true, obj_create_err,
  ◌>>=◌, ◌>>◌,
}
use oqs_provider.NidTable.{NidName, set_nid, find_nid}
use oqs_provider.Provider.{Objects, ObjectCall, create_again, register_one, register_all}
use oqs_provider.Provider.Registration.Names.{all_fresh, distinct_names, Matches, distinct_middle}

module _ {W : Type 0} (o : Objects W) (obj_create obj_add_sigid : ObjectCall W) where
  -- OpenSSL's table of objects: no call takes the number of a name away, adding an algorithm to it gives no
  -- name a number, and different names have different numbers.
  pub record KeepsNumbers : Type 0 where
    pub create_keeps :
        (name oid n : String) (w : W)
        → 0 < o.sn2nid name w
        → o.sn2nid name (o.create oid n n w) ≡ o.sn2nid name w
    pub obj_create_keeps :
        (name oid n : String) (w : W)
        → 0 < o.sn2nid name w
        → o.sn2nid name (obj_create oid n n w).1 ≡ o.sn2nid name w
    pub add_sigid_keeps :
        (name n : String) (w : W) → o.sn2nid name (obj_add_sigid n "" n w).1 ≡ o.sn2nid name w
    pub distinct : (a b : String) (w : W) → 0 < o.sn2nid a w → o.sn2nid a w ≡ o.sn2nid b w → a ≡ b

  -- A row with the number of its name.
  abbrev pub numbered : W → NidName → NidName
  numbered w r = record r { nid = o.sn2nid r.tlsname w }

  abbrev pub all_numbered : W → List NidName → List NidName
  all_numbered w [] = []
  all_numbered w (r ∷ rs) = numbered w r ∷ all_numbered w rs

  -- Every name has a number.
  abbrev pub AllKnown : W → List NidName → Type 0
  AllKnown w [] = Unit
  AllKnown w (r ∷ rs) = (0 < o.sn2nid r.tlsname w) × AllKnown w rs

  set_nid-done :
      (w : W) (done : List NidName) (r : NidName) (rest : List NidName) (n : ℕ)
      → distinct_names (done ++ (r ∷ rest)) ≡ true
      → set_nid (all_numbered w done ++ (r ∷ rest)) r.tlsname n
        ≡ (all_numbered w done ++ (record r { nid = n } ∷ rest), true)
  unfolding set_nid
  set_nid-done w [] r rest n e = rw ((eq_iff r.tlsname r.tlsname).1 refl) refl
  set_nid-done w (d ∷ done) r rest n e =
      rw
        (
          set_nid-done w done r rest n (distinct_middle d done r rest e).1,
          (distinct_middle d done r rest e).0,
        )
        refl

  -- The numbers that there are stay.
  abbrev Keeps : W → W → Type 0
  Keeps w w' = (name : String) → 0 < o.sn2nid name w → o.sn2nid name w' ≡ o.sn2nid name w

  keep-AllKnown :
      (w w' : W) → Keeps w w' → (rows : List NidName) → AllKnown w rows → AllKnown w' rows
  keep-AllKnown w w' keeps [] known = tt
  keep-AllKnown w w' keeps (r ∷ rows) (positive, known) = (
    subst (λ n. 0 < n) (sym (keeps r.tlsname positive)) positive,
    keep-AllKnown w w' keeps rows known,
  )

  keep-numbered :
      (w w' : W)
      → Keeps w w'
      → (rows : List NidName) → AllKnown w rows
      → all_numbered w' rows ≡ all_numbered w rows
  keep-numbered w w' keeps [] known = refl
  keep-numbered w w' keeps (r ∷ rows) (positive, known) =
      rw (keeps r.tlsname positive, keep-numbered w w' keeps rows known) refl

  numbered-append :
      (w : W) (done : List NidName) (r : NidName) (rest : List NidName)
      → all_numbered w (done ++ (r ∷ [])) ++ rest ≡ all_numbered w done ++ (numbered w r ∷ rest)
  numbered-append w [] r rest = refl
  numbered-append w (d ∷ done) r rest = ap (◌∷◌ (numbered w d)) (numbered-append w done r rest)

  known-append :
      (w : W) (done : List NidName) (r : NidName)
      → AllKnown w done
      → 0 < o.sn2nid r.tlsname w
      → AllKnown w (done ++ (r ∷ []))
  known-append w [] r known positive = (positive, tt)
  known-append w (d ∷ done) r (p, known) positive = (p, known-append w done r known positive)

  positive_number : (n : ℕ) → not (n == 0) ≡ true → 0 < n
  positive_number n e = ground (arith, e)

  -- The rows that are done have their numbers, and the others are as they were.
  abbrev Done : (done rest : List NidName) → List NidName × W → Type 0
  Done done rest out = (out.0 ≡ all_numbered out.1 done ++ rest) × AllKnown out.1 done

  module _ (laws : KeepsNumbers) (version : Option String) where
    create_again-Keeps :
        (v : Option String) (oid name : String) (w w' : W)
        → create_again o obj_create obj_add_sigid v oid name w ≡ ok w'
        → Keeps w w'
    create_again-Keeps none oid name w w' e = absurd cc
    create_again-Keeps (some v) oid name w w' e = go (not (str_eq "3.1.0" v)) e
      where
        go : (b : Bool) → ok (if b then o.create oid name name w else w) ≡ ok w' → Keeps w w'
        go true e n positive =
            ap (o.sn2nid n) (sym (ok_injective e)) ∙ laws.create_keeps n oid name w positive
        go false e n positive = ap (o.sn2nid n) (sym (ok_injective e))

    register_one-Done :
        (oid : String) (done : List NidName) (r : NidName) (rest : List NidName) (w : W)
        → distinct_names (done ++ (r ∷ rest)) ≡ true
        → AllKnown w done
        → Post (Done (done ++ (r ∷ [])) rest) (
            register_one o obj_create obj_add_sigid version oid r.tlsname
              (all_numbered w done ++ (r ∷ rest))
              w)
    unfolding register_one
    register_one-Done oid done r rest w unique known =
        Post-bind _ (ensure (obj_create oid r.tlsname r.tlsname w).0 obj_create_err) _ λ u1 e1.
          Post-bind _ (create_again o obj_create obj_add_sigid version oid r.tlsname created) _
            λ w' e2.
              Post-bind _
                (ensure (set_nid before r.tlsname (o.sn2nid r.tlsname w')).1 obj_create_err) _
                λ u3 e3.
                  Post-bind _ (ensure (obj_add_sigid r.tlsname "" r.tlsname w').0 obj_create_err) _
                    λ u4 e4.
                      Post-bind _ (ensure (not (o.sn2nid r.tlsname (added w') == 0)) obj_create_err)
                        _
                        λ u5 e5.
                          finished w' (all_kept w' e2) (positive_number _ (ensure-true _ _ e5))
      where
        created : W
        created = (obj_create oid r.tlsname r.tlsname w).1

        before : List NidName
        before = all_numbered w done ++ (r ∷ rest)

        added : W → W
        added w' = (obj_add_sigid r.tlsname "" r.tlsname w').1

        all_kept :
            (w' : W)
            → create_again o obj_create obj_add_sigid version oid r.tlsname
                (obj_create oid r.tlsname r.tlsname w).1
              ≡ ok w'
            → Keeps w (obj_add_sigid r.tlsname "" r.tlsname w').1
        all_kept w' e name positive =
            laws.add_sigid_keeps name r.tlsname w'
            ∙ create_again-Keeps version oid r.tlsname _ w' e name (
                subst (λ n. 0 < n) (sym (laws.obj_create_keeps name oid r.tlsname w positive))
                  positive)
            ∙ laws.obj_create_keeps name oid r.tlsname w positive

        finished :
            (w' : W)
            → Keeps w (obj_add_sigid r.tlsname "" r.tlsname w').1
            → 0 < o.sn2nid r.tlsname (obj_add_sigid r.tlsname "" r.tlsname w').1
            → Done (done ++ (r ∷ [])) rest (
              (set_nid (all_numbered w done ++ (r ∷ rest)) r.tlsname (o.sn2nid r.tlsname w')).0,
              (obj_add_sigid r.tlsname "" r.tlsname w').1,
            )
        finished w' keeps positive =
            let w'' = (obj_add_sigid r.tlsname "" r.tlsname w').1 in
            (
              ap (λ x. x.0) (set_nid-done w done r rest (o.sn2nid r.tlsname w') unique)
                  ∙ ap (λ n. all_numbered w done ++ (record r { nid = n } ∷ rest))
                      (sym (laws.add_sigid_keeps r.tlsname r.tlsname w'))
                  ∙ ap (λ rows. rows ++ (numbered w'' r ∷ rest))
                      (sym (keep-numbered w w'' keeps done known))
                  ∙ sym (numbered-append w'' done r rest),
              known-append w'' done r (keep-AllKnown w w'' keeps done known) positive,
            )

    abbrev AllDone : List NidName → List NidName × W → Type 0
    AllDone rows out = (out.0 ≡ all_numbered out.1 rows) × AllKnown out.1 rows

    register_all-Done :
        (list : List String) (done rest : List NidName) (w : W)
        → Matches list rest
        → distinct_names (done ++ rest) ≡ true
        → AllKnown w done
        → Post
            (AllDone (done ++ rest))
            (register_all o obj_create obj_add_sigid version list (all_numbered w done ++ rest) w)
    unfolding register_all
    register_all-Done [] done [] w matches unique known =
        rw (append-nil done, append-nil (all_numbered w done)) (refl, known)
    register_all-Done (oid ∷ name ∷ list) done (r ∷ rest) w (same, matches) unique known =
        Post-chain (Done (done ++ (r ∷ [])) rest) (AllDone (done ++ (r ∷ rest)))
          (register_one o obj_create obj_add_sigid version oid name
            (all_numbered w done ++ (r ∷ rest)) w)
          _ (rw (same) (register_one-Done oid done r rest w unique known))
          λ out (rows, known').
            rw (rows, ← append_assoc done (r ∷ []) rest)
              (register_all-Done list (done ++ (r ∷ [])) rest out.1 matches
                (rw (append_assoc done (r ∷ []) rest) unique) known')
    register_all-Done [] done (r ∷ rest) w matches unique known = elim matches [ ]
    register_all-Done (oid ∷ []) done [] w matches unique known = elim matches [ ]
    register_all-Done (oid ∷ []) done (r ∷ rest) w matches unique known = elim matches [ ]
    register_all-Done (oid ∷ name ∷ list) done [] w matches unique known = elim matches [ ]
