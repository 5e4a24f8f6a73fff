-- ===== src/Bio/Balance.antt =====
-- The references that the provider takes to a BIO of the core, and gives back.
use oqs_provider.Base.{◌≡◌, refl, ◌∙◌, Bool, true, false, ◌&&◌, none, some, Bool-cases, inl, inr}
use oqs_provider.Bio.{Upcalls, prov_bio_up_ref, prov_bio_free, bio_free_out, bio_new_from_core_bio}

module _ {W H : Type 0} where
  -- What the core keeps to: a reference that was taken is given back by freeing the handle, one that was
  -- not taken leaves the state, and freeing null does nothing.
  pub record CountsReferences (u : Upcalls W H) : Type 0 where
    pub taken :
        (core : H) (w : W)
        → (prov_bio_up_ref u (some core) w).0 ≡ true
        → (prov_bio_free u (some core) (prov_bio_up_ref u (some core) w).1).1 ≡ w
    pub not_taken :
        (core : H) (w : W)
        → (prov_bio_up_ref u (some core) w).0 ≡ false
        → (prov_bio_up_ref u (some core) w).1 ≡ w
    pub null_free : (w : W) → (prov_bio_free u none w).1 ≡ w

  -- Making a BIO for a BIO of the core and freeing it leaves the core's state as it was, on every path: where
  -- there is no method, no BIO could be made, or no reference be taken.
  pub bio_free-bio_new :
      (u : Upcalls W H)
      → CountsReferences u
      → (method made : Bool) (core : H) (w : W)
      → bio_free_out u
          (bio_new_from_core_bio u method made core w).0
          (bio_new_from_core_bio u method made core w).1
        ≡ w
  unfolding bio_free_out bio_new_from_core_bio
  bio_free-bio_new u counts method made core w = elim (Bool-cases (method && made)) [
    | inl good ↦ rw (good) (elim (Bool-cases (prov_bio_up_ref u (some core) w).0) [
      | inl took ↦ rw (took) (counts.taken core w took)
      | inr refused ↦ rw (refused) (counts.null_free _ ∙ counts.not_taken core w refused)
    ])
    | inr bad ↦ rw (bad) refl
  ]
