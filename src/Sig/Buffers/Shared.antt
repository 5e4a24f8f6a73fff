-- ===== src/Sig/Buffers/Shared.antt =====
-- A copy that is given up while it shares blocks with its source.
use oqs_provider.Base.{
  equal, if◌then◌else◌, ℕ, ◌==◌, ◌≡◌, refl, true, false, Bool-cases, inl, inr, Option, none, some,
  List, [], ◌∷◌,
}
use oqs_provider.Run.{ok, ub, Post, Post_ok}
use oqs_provider.Sig.Buffers.{
  Heap, allocate, freed, free_all, Blocks, pointers, freectx, DupCalls, dupctx, dup_mdctx,
  dup_buffers, dup_block,
}
use oqs_provider.Sig.Buffers.Separate.{
  Absent, Owned, free_all-Owned, allocate-Owned, swap-Owned, swap-Absent, cons-Owned,
}

-- Freeing revives nothing.
free_all_dead :
    (q : ℕ) (h : Heap) (ps : List (Option ℕ))
    → h.live q ≡ false
    → Post (λ h'. h'.live q ≡ false) (free_all h ps)
unfolding free_all
free_all_dead q h [] dead = dead
free_all_dead q h (none ∷ ps) dead = free_all_dead q h ps dead
free_all_dead q h (some p ∷ ps) dead = elim (Bool-cases (h.live p)) [
  | inl alive ↦ rw (alive) (free_all_dead q (freed h p) ps still_dead)
  | inr gone ↦ rw (gone) tt
]
  where
    still_dead : (if q == p then false else h.live q) ≡ false
    still_dead = elim (Bool-cases (q == p)) [ inl e ↦ rw (e) | inr e ↦ rw (e) dead ]

first-Absent : (x : ℕ) (p : Option ℕ) (ps : List (Option ℕ)) → Absent x (p ∷ ps) → Absent x (p ∷ [])
first-Absent x none ps a = tt
first-Absent x (some q) ps a = (a.0, tt)

module _ (h : Heap) (self q d : ℕ) (aid : Option ℕ) where
  -- A context that collects data without a digest.
  abbrev pub source : Blocks
  source = record { self = self; propq = some q; mdctx = none; mddata = some d; aid = aid }

  -- The copy when the collected data could not be duplicated.
  abbrev given_up : Blocks
  given_up = record source { self = h.next; mddata = none }

  shared-Owned : Owned h (pointers source) → Owned h (some q ∷ aid ∷ [])
  shared-Owned =
      cons-Owned h (some q) (none ∷ some d ∷ aid ∷ some self ∷ []) (aid ∷ [])
        (λ o. cons-Owned h aid (some self ∷ []) [] (λ _. tt) (λ x _. tt) o.3)
        (λ x a. first-Absent x aid (some self ∷ []) a.1)

  given_up-Owned : Owned h (pointers source) → Owned (allocate h) (pointers given_up)
  given_up-Owned o =
      cons-Owned (allocate h) (some q) (some h.next ∷ aid ∷ []) (aid ∷ some h.next ∷ [])
        (swap-Owned (allocate h) (some h.next) aid []) (λ x. swap-Absent x (some h.next) aid [])
        (swap-Owned (allocate h) (some h.next) (some q) (aid ∷ [])
          (allocate-Owned h (some q ∷ aid ∷ []) (shared-Owned o)))

  freed_given_up :
      (o : Owned h (pointers source)) (h' : Heap)
      → free_all (allocate h) (pointers given_up) ≡ ok h'
      → h'.live q ≡ false
  unfolding free_all
  freed_given_up o h' e =
      Post_ok (λ g. g.live q ≡ false) (free_all (allocate h) (pointers given_up))
        (rw ((given_up-Owned o).0)
          (free_all_dead q (freed (allocate h) q) (none ∷ none ∷ aid ∷ some h.next ∷ []) dead))
        e
    where
      dead : (if q == q then false else (allocate h).live q) ≡ false
      dead = rw (equal q q refl)

  -- When the data that a context without a digest collected cannot be duplicated, oqs_sig_dupctx fails and frees
  -- the property query of the source: freeing the source afterwards frees it a second time.
  pub freectx-given_up :
      (calls : DupCalls)
      → calls.zalloc ≡ true
      → calls.references ≡ true
      → calls.mddata_dup ≡ false
      → Owned h (pointers source)
      → (h' : Heap) × (dupctx calls h source ≡ ok (h', none)) × (freectx h' source ≡ ub)
  unfolding dupctx dup_mdctx dup_buffers dup_block freectx free_all
  freectx-given_up calls z r m o =
      let done = free_all-Owned (allocate h) (pointers given_up) [] (given_up-Owned o) in
      (done.0, rw (z, r, m) (rw (done.1)), rw (freed_given_up o done.0 done.1))
