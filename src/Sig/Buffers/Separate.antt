-- ===== src/Sig/Buffers/Separate.antt =====
-- A context and its copy share no block.
use oqs_provider.Base.{
  equal, unequal, ℕ, ◌<◌, ◌≡◌, ◌≢◌, refl, sym, true, Option, none, some, List, [], ◌∷◌, ◌++◌, arith,
  ap, ◌∙◌,
}
use oqs_provider.Run.{Run, ok, ◌>>=◌}
use oqs_provider.Sig.Buffers.{
  Heap, allocate, freed, free_all, Blocks, pointers, freectx, dupctx, dup_mdctx, dup_buffers,
  dup_block, all_good,
}

abbrev pub Absent : ℕ → List (Option ℕ) → Type 0
Absent p [] = Unit
Absent p (none ∷ ps) = Absent p ps
Absent p (some q ∷ ps) = (p ≢ q) × Absent p ps

-- Allocated blocks, each pointed to once.
abbrev pub Owned : Heap → List (Option ℕ) → Type 0
Owned h [] = Unit
Owned h (none ∷ ps) = Owned h ps
Owned h (some p ∷ ps) = (h.live p ≡ true) × Absent p ps × (p < h.next) × Owned h ps

pub freed-Owned :
    (h : Heap) (p : ℕ) (ps : List (Option ℕ)) → Absent p ps → Owned h ps → Owned (freed h p) ps
freed-Owned h p [] a o = tt
freed-Owned h p (none ∷ ps) a o = freed-Owned h p ps a o
freed-Owned h p (some q ∷ ps) a o =
    (rw (unequal q p (λ e. a.0 (sym e))) o.0, o.1, o.2, freed-Owned h p ps a.1 o.3)

pub free_all-Owned :
    (h : Heap) (ps qs : List (Option ℕ))
    → Owned h (ps ++ qs)
    → (h' : Heap) × (free_all h ps ≡ ok h') × Owned h' qs
unfolding free_all
free_all-Owned h [] qs o = (h, refl, o)
free_all-Owned h (none ∷ ps) qs o = free_all-Owned h ps qs o
free_all-Owned h (some p ∷ ps) qs o =
    let rest = free_all-Owned (freed h p) ps qs (freed-Owned h p (ps ++ qs) o.1 o.3) in
    (rest.0, rw (o.0) rest.1, rest.2)

allocated-Absent : (h : Heap) (ps : List (Option ℕ)) → Owned h ps → Absent h.next ps
allocated-Absent h [] o = tt
allocated-Absent h (none ∷ ps) o = allocated-Absent h ps o
allocated-Absent h (some q ∷ ps) o =
    (λ e. absurd (omega (arith, e, o.2)), allocated-Absent h ps o.3)

kept-Owned : (h : Heap) (ps : List (Option ℕ)) → Owned h ps → Owned (allocate h) ps
kept-Owned h [] o = tt
kept-Owned h (none ∷ ps) o = kept-Owned h ps o
kept-Owned h (some q ∷ ps) o = (
  rw (unequal q h.next (λ e. absurd (omega (arith, e, o.2)))) o.0,
  o.1,
  omega (arith, o.2),
  kept-Owned h ps o.3,
)

-- A new block beside those that are owned.
pub allocate-Owned :
    (h : Heap) (ps : List (Option ℕ)) → Owned h ps → Owned (allocate h) (some h.next ∷ ps)
allocate-Owned h ps o =
    (rw (equal h.next h.next refl) refl, allocated-Absent h ps o, omega arith, kept-Owned h ps o)

pub swap-Owned :
    (h : Heap) (p q : Option ℕ) (ps : List (Option ℕ)) → Owned h (p ∷ q ∷ ps) → Owned h (q ∷ p ∷ ps)
swap-Owned h none none ps o = o
swap-Owned h none (some q) ps o = o
swap-Owned h (some p) none ps o = o
swap-Owned h (some p) (some q) ps o =
    (o.3.0, (λ e. o.1.0 (sym e), o.3.1), o.3.2, (o.0, o.1.1, o.2, o.3.3))

pub cons-Owned :
    (h : Heap) (p : Option ℕ) (ps qs : List (Option ℕ))
    → (Owned h ps → Owned h qs)
    → ((x : ℕ) → Absent x ps → Absent x qs)
    → Owned h (p ∷ ps)
    → Owned h (p ∷ qs)
cons-Owned h none ps qs f g o = f o
cons-Owned h (some p) ps qs f g o = (o.0, g p o.1, o.2, f o.3)

pub swap-Absent :
    (x : ℕ) (p q : Option ℕ) (ps : List (Option ℕ)) → Absent x (p ∷ q ∷ ps) → Absent x (q ∷ p ∷ ps)
swap-Absent x none none ps a = a
swap-Absent x none (some q) ps a = a
swap-Absent x (some p) none ps a = a
swap-Absent x (some p) (some q) ps a = (a.1.0, (a.0, a.1.1))

reverse-Owned :
    (h : Heap) (a b c : Option ℕ) (ps : List (Option ℕ))
    → Owned h (a ∷ b ∷ c ∷ ps)
    → Owned h (c ∷ b ∷ a ∷ ps)
reverse-Owned h a b c ps o = swap-Owned h b c (a ∷ ps) (
    cons-Owned h b (a ∷ c ∷ ps) (c ∷ a ∷ ps) (swap-Owned h a c ps) (λ x. swap-Absent x a c ps)
      (swap-Owned h a b (c ∷ ps) o))

-- A duplication that succeeds: the heap, and the copy.
abbrev room : Heap → Option ℕ → Heap
room h none = h
room h (some p) = allocate h

abbrev copied : Heap → Option ℕ → Option ℕ
copied h none = none
copied h (some p) = some h.next

copied-Owned :
    (h : Heap) (o : Option ℕ) (ps : List (Option ℕ))
    → Owned h ps
    → Owned (room h o) (copied h o ∷ ps)
copied-Owned h none ps w = w
copied-Owned h (some p) ps w = allocate-Owned h ps w

dup_block-good :
    (h : Heap) (o : Option ℕ) (failed : Run (Heap × Option Blocks))
    (then_ : Heap → Option ℕ → Run (Heap × Option Blocks))
    → dup_block true h o failed then_ ≡ then_ (room h o) (copied h o)
unfolding dup_block
dup_block-good h none failed then_ = refl
dup_block-good h (some p) failed then_ = refl

dup_mdctx-good :
    (h : Heap) (dst : Blocks) (o : Option ℕ) (then_ : Heap → Blocks → Run (Heap × Option Blocks))
    → dst.mdctx ≡ none
    → dup_mdctx all_good h dst o then_ ≡ then_ (room h o) (record dst { mdctx = copied h o })
unfolding dup_mdctx
dup_mdctx-good h dst none then_ e = ap (λ m. then_ h (record dst { mdctx = m })) e
dup_mdctx-good h dst (some p) then_ e = refl

module _ (h : Heap) (src : Blocks) where
  abbrev h1 : Heap
  h1 = allocate h

  abbrev h2 : Heap
  h2 = room h1 src.mdctx

  abbrev h3 : Heap
  h3 = room h2 src.mddata

  abbrev h4 : Heap
  h4 = room h3 src.aid

  abbrev pub after : Heap
  after = room h4 src.propq

  abbrev pub copy : Blocks
  copy = record {
    self = h.next;
    propq = copied h4 src.propq;
    mdctx = copied h1 src.mdctx;
    mddata = copied h2 src.mddata;
    aid = copied h3 src.aid;
  }

  dupctx-good : dupctx all_good h src ≡ ok (after, some copy)
  unfolding dupctx dup_buffers
  dupctx-good =
      dup_mdctx-good h1 _ src.mdctx _ refl
      ∙ dup_block-good h2 src.mddata _ _
      ∙ dup_block-good h3 src.aid _ _
      ∙ dup_block-good h4 src.propq _ _

  copy-Owned : Owned h (pointers src) → Owned after (pointers copy ++ pointers src)
  copy-Owned o = copied-Owned h4 src.propq _ (
      reverse-Owned h4 copy.aid copy.mddata copy.mdctx _ (
        copied-Owned h3 src.aid _ (
          copied-Owned h2 src.mddata _
            (copied-Owned h1 src.mdctx _ (allocate-Owned h (pointers src) o)))))

-- Duplicating a context whose blocks are allocated and distinct, when every call that it makes succeeds,
-- succeeds, and all the blocks of the copy and of the source are allocated and distinct.
pub dupctx-Owned :
    (h : Heap) (src : Blocks)
    → Owned h (pointers src)
    → (h' : Heap) × (dst : Blocks) × (dupctx all_good h src ≡ ok (h', some dst))
      × Owned h' (pointers dst ++ pointers src)
dupctx-Owned h src o = (after h src, copy h src, dupctx-good h src, copy-Owned h src o)

-- A context whose blocks are allocated and distinct can be duplicated, when every call that this makes succeeds,
-- and the copy and then the source be freed, without freeing a block twice.
pub freectx-dupctx :
    (h : Heap) (src : Blocks)
    → Owned h (pointers src)
    → (h' : Heap) × (dst : Blocks) × (dupctx all_good h src ≡ ok (h', some dst))
      × ((h'' : Heap) × ((freectx h' dst >>= λ g. freectx g src) ≡ ok h''))
unfolding freectx
freectx-dupctx h src o =
    let first =
      free_all-Owned (after h src) (pointers (copy h src)) (pointers src) (copy-Owned h src o) in
    let second = free_all-Owned first.0 (pointers src) [] first.2 in
    (after h src, copy h src, dupctx-good h src, (second.0, rw (first.1) second.1))
