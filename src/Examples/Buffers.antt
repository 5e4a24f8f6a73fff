-- ===== src/Examples/Buffers.antt =====
-- The blocks of a signature context.
use oqs_provider.Base.{◌≡◌, ◌++◌, ltb, refl, false, none, some, arith}
use oqs_provider.Run.{ok, ub, ◌>>=◌}
use oqs_provider.Sig.Buffers.{Heap, Blocks, pointers, freectx, DupCalls, all_good, dupctx}
use oqs_provider.Sig.Buffers.Separate.{Owned, dupctx-Owned, freectx-dupctx}
use oqs_provider.Sig.Buffers.Shared.{source, freectx-given_up}

-- Three blocks: the context, its property query and the data it collected.
abbrev heap : Heap
heap = record { live = λ p. ltb p 3; next = 3 }

abbrev ctx : Blocks
ctx = source heap 0 1 2 none

ctx-Owned : Owned heap (pointers ctx)
ctx-Owned = (
  refl,
  (λ e. absurd (omega (arith, e)), (λ e. absurd (omega (arith, e)), tt)),
  omega arith,
  (refl, (λ e. absurd (omega (arith, e)), tt), omega arith, (refl, tt, omega arith, tt)),
)

dupctx-Owned_example :
    (h' : Heap) × (dst : Blocks) × (dupctx all_good heap ctx ≡ ok (h', some dst))
    × Owned h' (pointers dst ++ pointers ctx)
dupctx-Owned_example = dupctx-Owned heap ctx ctx-Owned

freectx-dupctx_example :
    (h' : Heap) × (dst : Blocks) × (dupctx all_good heap ctx ≡ ok (h', some dst))
    × ((h'' : Heap) × ((freectx h' dst >>= λ g. freectx g ctx) ≡ ok h''))
freectx-dupctx_example = freectx-dupctx heap ctx ctx-Owned

abbrev no_memory : DupCalls
no_memory = record all_good { mddata_dup = false }

freectx-given_up_example :
    (h' : Heap) × (dupctx no_memory heap ctx ≡ ok (h', none)) × (freectx h' ctx ≡ ub)
freectx-given_up_example = freectx-given_up heap 0 1 2 none no_memory refl refl refl ctx-Owned
