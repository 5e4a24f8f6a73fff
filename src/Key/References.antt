-- ===== src/Key/References.antt =====
-- The reference counts of the keys: oqsx_key_up_ref and oqsx_key_free of oqsprov/oqsprov_keys.c, and
-- the contexts that hold a key: oqs_kem_decapsencaps_init and oqs_kem_freectx of oqsprov/oqs_kem.c,
-- oqs_sig_signverify_init, oqs_sig_freectx and oqs_sig_dupctx of oqsprov/oqs_sig.c. A key is a number, and
-- a count of 0 is that of a key that was freed, or not made yet.
pub mod Balance
pub mod Reachable
pub mod Drain
mod Examples
use oqs_provider.Base.{
  ℕ, zero, suc, ◌+◌, ◌-◌, ◌==◌, ◌≤◌, ◌≡◌, Bool, true, false, Option, none, some, List, [], ◌∷◌,
  ◌++◌, if◌then◌else◌, ltb, get_elem?,
}
use oqs_provider.Run.{Run, ok, ub, ◌>>=◌}

abbrev pub Counts : Type 0
Counts = ℕ → ℕ

abbrev pub update : Counts → ℕ → ℕ → Counts
update counts k n = λ p. if p == k then n else counts p

-- The largest value of the C int that the count is.
abbrev pub int_max : ℕ
int_max = 2147483647

-- oqsx_key_up_ref: what it leaves, and whether there are now several references. The sum of the int that
-- atomic_fetch_add_explicit returns and 1 is undefined when it does not fit.
unfoldable pub up_ref : Counts → ℕ → Run (Counts × Bool)
up_ref counts k =
    if counts k == 0
    then ub
    else if ltb (counts k) int_max
    then ok (update counts k (counts k + 1), ltb 1 (counts k + 1))
    else ub

-- oqsx_key_free, which does nothing for null. The key goes with its last reference. A count that is not
-- 0 is positive here, so the int does not wrap around.
unfoldable pub key_free : Counts → Option ℕ → Run Counts
key_free counts none = ok counts
key_free counts (some k) = if counts k == 0 then ub else ok (update counts k (counts k - 1))

-- oqs_kem_decapsencaps_init, and oqs_sig_signverify_init up to its last test: a context that holds `old`
-- is given a key. The counts, what it holds then, and whether it was given the key.
unfoldable pub hold : Counts → (old : Option ℕ) → Option ℕ → Run (Counts × (Option ℕ × Bool))
hold counts old none = ok (counts, (old, false))
hold counts old (some k) = do
  r ← up_ref counts k
  if r.1
      then (do counts' ← key_free r.0 old; ok (counts', (some k, true)))
      else ok (r.0, (old, false))

-- The keys, the references that OpenSSL's own objects have to each, and the contexts, each with the
-- key that it holds.
pub record System : Type 0 where
  pub counts : Counts
  pub owned : Counts
  pub ctxs : List (Option ℕ)

-- What OpenSSL calls.
pub data Op : Type 0 where
  -- a new key of that number, and OpenSSL's reference to one given back
  new_key disown : ℕ → Op
  new_ctx : Op
  -- initialise, free or duplicate the context at a position
  init_ctx : ℕ → Option ℕ → Op
  free_ctx dup_ctx : ℕ → Op

abbrev pub set_at : List (Option ℕ) → ℕ → Option ℕ → List (Option ℕ)
set_at [] j c = []
set_at (x ∷ xs) zero c = c ∷ xs
set_at (x ∷ xs) (suc j) c = x ∷ set_at xs j c

-- A context that is freed holds nothing from then on.
at_ctx : System → ℕ → (Option ℕ → Run System) → Run System
at_ctx s j f = elim (get_elem? s.ctxs j) [ none ↦ ub | some c ↦ f c ]

init_at : System → ℕ → Option ℕ → Option ℕ → Run System
init_at s j key old = do
  r ← hold s.counts old key
  ok (record s { counts = r.0; ctxs = set_at s.ctxs j r.1.0 })

free_at : System → ℕ → Option ℕ → Run System
free_at s j old = do
  counts' ← key_free s.counts old
  ok (record s { counts = counts'; ctxs = set_at s.ctxs j none })

dup_at : System → Option ℕ → Run System
dup_at s none = ok (record s { ctxs = none ∷ s.ctxs })
dup_at s (some k) = do
  r ← up_ref s.counts k
  if r.1
      then ok (record s { counts = r.0; ctxs = some k ∷ s.ctxs })
      else ok (record s { counts = r.0 })

-- One call. A new context comes first in the list.
unfoldable pub step : System → Op → Run System
unfolding at_ctx init_at free_at dup_at
step s (new_key k) = ok (record s { counts = update s.counts k 1; owned = update s.owned k 1 })
step s (disown k) = do
  counts' ← key_free s.counts (some k)
  ok (record s { counts = counts'; owned = update s.owned k (s.owned k - 1) })
step s new_ctx = ok (record s { ctxs = none ∷ s.ctxs })
step s (init_ctx j key) = at_ctx s j (λ old. init_at s j key old)
step s (free_ctx j) = at_ctx s j (λ old. free_at s j old)
step s (dup_ctx j) = at_ctx s j (λ old. dup_at s old)
