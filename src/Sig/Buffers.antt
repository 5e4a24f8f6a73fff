-- ===== src/Sig/Buffers.antt =====
-- oqsprov/oqs_sig.c: the blocks of memory that a signature context owns, from oqs_sig_newctx to
-- oqs_sig_freectx, and oqs_sig_dupctx. A block is a number; what it holds is in Sig/Context, and the
-- references to the key are in Key/References.
pub mod Separate
pub mod Shared
use oqs_provider.Base.{
  ℕ, ◌+◌, ◌==◌, Bool, true, false, not, Option, none, some, List, [], ◌∷◌, if◌then◌else◌,
}
use oqs_provider.Run.{Run, ok, ub, ◌>>=◌}

-- The blocks that are allocated, and a number from which on none is.
pub record Heap : Type 0 where
  pub live : ℕ → Bool
  pub next : ℕ

-- The allocator's answer is a block that is not in use.
abbrev pub allocate : Heap → Heap
allocate h = record { live = λ p. if p == h.next then true else h.live p; next = h.next + 1 }

abbrev pub freed : Heap → ℕ → Heap
freed h p = record h { live = λ q. if q == p then false else h.live q }

-- OPENSSL_free and its like, one pointer after the other; null is skipped.
unfoldable pub free_all : Heap → List (Option ℕ) → Run Heap
free_all h [] = ok h
free_all h (none ∷ ps) = free_all h ps
free_all h (some p ∷ ps) = let rest = free_all (freed h p) ps in if h.live p then rest else ub

-- The context and its pointers to blocks.
pub record Blocks : Type 0 where
  pub self : ℕ
  pub propq : Option ℕ
  pub mdctx : Option ℕ
  pub mddata : Option ℕ
  pub aid : Option ℕ

-- In the order in which oqs_sig_freectx frees them.
abbrev pub pointers : Blocks → List (Option ℕ)
pointers ctx = ctx.propq ∷ ctx.mdctx ∷ ctx.mddata ∷ ctx.aid ∷ some ctx.self ∷ []

-- oqs_sig_freectx
unfoldable pub freectx : Heap → Blocks → Run Heap
freectx h ctx = free_all h (pointers ctx)

-- What the calls of oqs_sig_dupctx answer. `references` says that the key and the digest are null or
-- were given another reference.
pub record DupCalls : Type 0 where
  pub zalloc : Bool
  pub references : Bool
  pub mdctx_new : Bool
  pub mdctx_copy : Bool
  pub mddata_dup : Bool
  pub aid_dup : Bool
  pub propq_dup : Bool

-- The label `err`: the copy is freed with whatever its pointers hold by then.
abbrev abandon : Heap → Blocks → Run (Heap × Option Blocks)
abandon h dst = do h' ← freectx h dst; ok (h', none)

-- OPENSSL_memdup and OPENSSL_strdup of a block that may be absent.
unfoldable pub dup_block :
    Bool
    → Heap
    → Option ℕ
    → Run (Heap × Option Blocks)
    → (Heap → Option ℕ → Run (Heap × Option Blocks))
    → Run (Heap × Option Blocks)
dup_block good h none failed then_ = then_ h none
dup_block good h (some p) failed then_ = if good then then_ (allocate h) (some h.next) else failed

unfoldable pub dup_mdctx :
    DupCalls
    → Heap
    → Blocks
    → Option ℕ
    → (Heap → Blocks → Run (Heap × Option Blocks))
    → Run (Heap × Option Blocks)
dup_mdctx calls h dst none then_ = then_ h dst
dup_mdctx calls h dst (some p) then_ =
    if not calls.mdctx_new
    then abandon h dst
    else (let dst' = record dst { mdctx = some h.next } in
        if not calls.mdctx_copy then abandon (allocate h) dst' else then_ (allocate h) dst')

unfoldable pub dup_buffers : DupCalls → Blocks → Heap → Blocks → Run (Heap × Option Blocks)
dup_buffers calls src h dst =
    dup_block calls.mddata_dup h src.mddata (abandon h (record dst { mddata = none })) λ h1 mddata.
      let dst1 = record dst { mddata = mddata } in
      dup_block calls.aid_dup h1 src.aid (abandon h1 (record dst1 { aid = none })) λ h2 aid.
        let dst2 = record dst1 { aid = aid } in
        dup_block calls.propq_dup h2 src.propq (abandon h2 (record dst2 { propq = none }))
          λ h3 propq. ok (h3, some (record dst2 { propq = propq }))

abbrev pub all_good : DupCalls
all_good = record {
  zalloc = true;
  references = true;
  mdctx_new = true;
  mdctx_copy = true;
  mddata_dup = true;
  aid_dup = true;
  propq_dup = true;
}

-- oqs_sig_dupctx. The structure is copied first, so that the copy shares the blocks of the source until
-- each is duplicated.
unfoldable pub dupctx : DupCalls → Heap → Blocks → Run (Heap × Option Blocks)
dupctx calls h src =
    if not calls.zalloc
    then ok (h, none)
    else (let dst = record src { self = h.next; mdctx = none } in
        if not calls.references
        then abandon (allocate h) dst
        else dup_mdctx calls (allocate h) dst src.mdctx (dup_buffers calls src))
