-- ===== src/Key/References/Balance.antt =====
-- The count of a key is the number of its holders, and no call touches a key that was freed.
use oqs_provider.Base.{
  ℕ, zero, suc, ◌+◌, ◌-◌, ◌==◌, ◌≤◌, ◌<◌, ◌≡◌, refl, sym, ap, ◌∙◌, Bool, true, false, Option, none,
  some, List, [], ◌∷◌, if◌then◌else◌, ltb, get_elem?, arith, ==_iff,
}
use oqs_provider.Run.{ok}
use oqs_provider.Key.References.{
  Counts, update, up_ref, key_free, hold, System, Op, int_max, new_key, disown, new_ctx, init_ctx,
  free_ctx, dup_ctx, set_at, at_ctx, init_at, free_at, dup_at, step,
}

-- 1 if a context holds the key.
abbrev pub holds : Option ℕ → ℕ → ℕ
holds none p = 0
holds (some k) p = if p == k then 1 else 0

-- How many contexts hold the key.
abbrev pub holders : List (Option ℕ) → ℕ → ℕ
holders [] p = 0
holders (c ∷ cs) p = holds c p + holders cs p

-- Every count is the number of OpenSSL's references and of contexts that hold the key.
abbrev pub IsBalanced : System → Type 0
IsBalanced s = (p : ℕ) → s.counts p ≡ s.owned p + holders s.ctxs p

-- Another reference to what a context holds still fits the int.
abbrev pub HasRoom : Counts → Option ℕ → Type 0
HasRoom counts none = Unit {0}
HasRoom counts (some k) = counts k < int_max

-- What OpenSSL keeps to: a new key has a new number, OpenSSL uses keys that it has a reference to, and
-- contexts that there are, and asks for no reference to a key that has 2147483647 of them.
abbrev pub IsAllowed : System → Op → Type 0
IsAllowed s (new_key k) = s.counts k ≡ 0
IsAllowed s (disown k) = 0 < s.owned k
IsAllowed s new_ctx = Unit {0}
IsAllowed s (init_ctx j none) = (c : Option ℕ) × (get_elem? s.ctxs j ≡ some c)
IsAllowed s (init_ctx j (some k)) =
    (0 < s.owned k) × (s.counts k < int_max) × ((c : Option ℕ) × (get_elem? s.ctxs j ≡ some c))
IsAllowed s (free_ctx j) = (c : Option ℕ) × (get_elem? s.ctxs j ≡ some c)
IsAllowed s (dup_ctx j) = (c : Option ℕ) × (get_elem? s.ctxs j ≡ some c) × HasRoom s.counts c

some_injective : {a b : Option ℕ} → some a ≡ some b → a ≡ b
some_injective e = cc

holders-set_at :
    (cs : List (Option ℕ)) (j : ℕ) (old new : Option ℕ) (p : ℕ)
    → get_elem? cs j ≡ some old
    → holders (set_at cs j new) p + holds old p ≡ holders cs p + holds new p
holders-set_at [] j old new p e = absurd cc
holders-set_at (c ∷ cs) zero old new p e = omega (arith, ap (λ o. holds o p) (some_injective e))
holders-set_at (c ∷ cs) (suc j) old new p e = omega (arith, holders-set_at cs j old new p e)

positive : (n : ℕ) → 0 < n → (n == 0) ≡ false
positive n h = ground arith

fits : (n : ℕ) → n < int_max → ltb n int_max ≡ true
fits n h = ground arith

several : (n : ℕ) → 0 < n → ltb 1 (n + 1) ≡ true
several n h = ground arith

up_ref-live :
    (counts : Counts) (k : ℕ)
    → 0 < counts k
    → counts k < int_max
    → up_ref counts k ≡ ok (update counts k (counts k + 1), true)
unfolding up_ref
up_ref-live counts k live room =
    rw (positive (counts k) live, fits (counts k) room, several (counts k) live)

key_free-live :
    (counts : Counts) (k : ℕ)
    → 0 < counts k
    → key_free counts (some k) ≡ ok (update counts k (counts k - 1))
unfolding key_free
key_free-live counts k live = rw (positive (counts k) live)

pub holds_self : (k : ℕ) → holds (some k) k ≡ 1
holds_self k = rw ((==_iff k k).1 refl)

-- What a context holds is counted.
holds-holders : (cs : List (Option ℕ)) (j k : ℕ) → get_elem? cs j ≡ some (some k) → 0 < holders cs k
holds-holders [] j k e = absurd cc
holds-holders (c ∷ cs) zero k e =
    omega (arith, ap (λ o. holds o k) (some_injective e), holds_self k)
holds-holders (c ∷ cs) (suc j) k e = omega (arith, holds-holders cs j k e)

-- A count that is one more, or one less, is so for that key alone.
plus_one :
    (counts : Counts) (k p : ℕ) → update counts k (counts k + 1) p ≡ counts p + holds (some k) p
plus_one counts k p = go (p == k) refl
  where
    go : (b : Bool) → (p == k) ≡ b → update counts k (counts k + 1) p ≡ counts p + holds (some k) p
    go true h = rw (h) (ap (λ x. counts x + 1) (sym ((==_iff p k).0 h)))
    go false h = rw (h) (omega arith)

plus_new :
    (counts : Counts) (k p : ℕ) → counts k ≡ 0 → update counts k 1 p ≡ counts p + holds (some k) p
plus_new counts k p fresh = ap (λ n. update counts k n p) one ∙ plus_one counts k p
  where
    one : 1 ≡ counts k + 1
    one = omega (arith, fresh)

minus_one :
    (counts : Counts) (k p : ℕ)
    → 0 < counts k
    → update counts k (counts k - 1) p + holds (some k) p ≡ counts p
minus_one counts k p live = go (p == k) refl
  where
    go : (b : Bool) → (p == k) ≡ b → update counts k (counts k - 1) p + holds (some k) p ≡ counts p
    go true h = rw (h) (omega (arith, live, ap counts ((==_iff p k).0 h)))
    go false h = rw (h) (omega arith)

-- Giving a context that holds `old` a key that is live succeeds, if `old` is live too and the count fits.
hold-live :
    (counts : Counts) (old : Option ℕ) (k : ℕ)
    → 0 < counts k
    → counts k < int_max
    → ((p : ℕ) → holds old p ≤ counts p)
    → (counts' : Counts) × (hold counts old (some k) ≡ ok (counts', (some k, true)))
      × ((p : ℕ) → counts' p + holds old p ≡ counts p + holds (some k) p)
unfolding hold key_free
hold-live counts none k live room old_live = (
  update counts k (counts k + 1),
  rw (up_ref-live counts k live room) refl,
  λ p. omega (arith, plus_one counts k p),
)
hold-live counts (some q) k live room old_live = (
  update (update counts k (counts k + 1)) q (update counts k (counts k + 1) q - 1),
  rw (up_ref-live counts k live room) (rw (key_free-live (update counts k (counts k + 1)) q still)),
  λ p. omega (arith, plus_one counts k p, minus_one (update counts k (counts k + 1)) q p still),
)
  where
    still : 0 < update counts k (counts k + 1) q
    still = omega (arith, plus_one counts k q, old_live q, holds_self q)

-- What a context holds is not more than what is counted.
pub balanced_live :
    (s : System) (j : ℕ) (old : Option ℕ)
    → IsBalanced s
    → get_elem? s.ctxs j ≡ some old
    → (p : ℕ) → holds old p ≤ s.counts p
balanced_live s j old balanced e p = omega (arith, balanced p, holders-set_at s.ctxs j old none p e)

-- Each call that OpenSSL may make on a balanced system succeeds, without an access to a key that was
-- freed, and leaves it balanced, where no reference is asked for to a key that has 2147483647 of them, the
-- most that the int tells.
pub step-IsBalanced :
    (s : System) (op : Op)
    → IsBalanced s
    → IsAllowed s op
    → (s' : System) × (step s op ≡ ok s') × IsBalanced s'
unfolding step at_ctx init_at free_at dup_at hold key_free
step-IsBalanced s (new_key k) balanced fresh = (
  record s { counts = update s.counts k 1; owned = update s.owned k 1 },
  refl,
  λ p. omega (arith, plus_new s.counts k p fresh, plus_new s.owned k p unowned, balanced p),
)
  where
    unowned : s.owned k ≡ 0
    unowned = omega (arith, balanced k, fresh)
step-IsBalanced s (disown k) balanced owned = (
  record s {
    counts = update s.counts k (s.counts k - 1);
    owned = update s.owned k (s.owned k - 1);
  },
  rw (key_free-live s.counts k (omega (arith, balanced k, owned))) refl,
  λ p. omega (
    arith,
    minus_one s.counts k p (omega (arith, balanced k, owned)),
    minus_one s.owned k p owned,
    balanced p,
  ),
)
step-IsBalanced s new_ctx balanced allowed =
    (record s { ctxs = none ∷ s.ctxs }, refl, λ p. omega (arith, balanced p))
step-IsBalanced s (init_ctx j none) balanced (old, e) = (
  record s { ctxs = set_at s.ctxs j old },
  rw (at_ctx, e) refl,
  λ p. omega (arith, balanced p, holders-set_at s.ctxs j old old p e),
)
step-IsBalanced s (init_ctx j (some k)) balanced (owned, room, (old, e)) =
    let given =
      hold-live s.counts old k (omega (arith, balanced k, owned)) room
        (balanced_live s j old balanced e) in
    (
      record s { counts = given.0; ctxs = set_at s.ctxs j (some k) },
      rw (at_ctx, e) (rw (given.1) refl),
      λ p. omega (arith, balanced p, given.2 p, holders-set_at s.ctxs j old (some k) p e),
    )
step-IsBalanced s (free_ctx j) balanced (none, e) = (
  record s { ctxs = set_at s.ctxs j none },
  rw (at_ctx, e) refl,
  λ p. omega (arith, balanced p, holders-set_at s.ctxs j none none p e),
)
step-IsBalanced s (free_ctx j) balanced (some q, e) = (
  record s { counts = update s.counts q (s.counts q - 1); ctxs = set_at s.ctxs j none },
  rw (at_ctx, e) (rw (key_free-live s.counts q live) refl),
  λ p.
      omega
        (arith, balanced p, minus_one s.counts q p live, holders-set_at s.ctxs j (some q) none p e),
)
  where
    live : 0 < s.counts q
    live = omega (arith, balanced_live s j (some q) balanced e q, holds_self q)
step-IsBalanced s (dup_ctx j) balanced (none, e, _) =
    (record s { ctxs = none ∷ s.ctxs }, rw (at_ctx, e) refl, λ p. omega (arith, balanced p))
step-IsBalanced s (dup_ctx j) balanced (some q, e, room) = (
  record s { counts = update s.counts q (s.counts q + 1); ctxs = some q ∷ s.ctxs },
  rw (at_ctx, e) (rw (up_ref-live s.counts q live room) refl),
  λ p. omega (arith, balanced p, plus_one s.counts q p),
)
  where
    live : 0 < s.counts q
    live = omega (arith, balanced_live s j (some q) balanced e q, holds_self q)
