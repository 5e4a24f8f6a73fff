-- ===== src/Key/References/Drain.antt =====
-- Every key can be freed: the contexts are freed, and OpenSSL gives its references back.
use oqs_provider.Base.{
  ℕ, zero, suc, ◌+◌, ◌-◌, ◌==◌, ◌≤◌, ◌<◌, ◌≡◌, refl, ap, ◌∙◌, Bool, true, false, Option, none, some,
  List, [], ◌∷◌, if◌then◌else◌, get_elem?, arith, ==_iff, Bool-cases, inl, inr,
}
use oqs_provider.Run.{Run, ok, ub, Post, Post-bind, Post_ok}
use oqs_provider.Key.References.{
  Counts, update, up_ref, key_free, hold, System, Op, new_key, disown, new_ctx, init_ctx, free_ctx,
  dup_ctx, set_at, at_ctx, init_at, free_at, dup_at, step,
}
use oqs_provider.Key.References.Balance.{IsBalanced, IsAllowed, step-IsBalanced, holders}
use oqs_provider.Key.References.Reachable.{Reachable, start, call, Reachable-IsBalanced}

-- A sequence of calls that OpenSSL may make.
pub data Leads : System → System → Type 0 where
  done : {s : System} → Leads s s
  next :
      {s s' s'' : System} (op : Op)
      → IsAllowed s op
      → step s op ≡ ok s'
      → Leads s' s''
      → Leads s s''

-- What OpenSSL's own references are after a call.
abbrev owned_after : System → Op → Counts
owned_after s (new_key k) = update s.owned k 1
owned_after s (disown k) = update s.owned k (s.owned k - 1)
owned_after s _ = s.owned

at_ctx-Post :
    (P : System → Type 0) (s : System) (j : ℕ) (f : Option ℕ → Run System)
    → ((c : Option ℕ) → Post P (f c))
    → Post P (at_ctx s j f)
unfolding at_ctx
at_ctx-Post P s j f all = go (get_elem? s.ctxs j)
  where
    go : (o : Option (Option ℕ)) → Post P (elim o [ none ↦ ub | some c ↦ f c ])
    go none = tt
    go (some c) = all c

step-owned : (s : System) (op : Op) → Post (λ s'. s'.owned ≡ owned_after s op) (step s op)
unfolding step init_at free_at dup_at
step-owned s (new_key k) = refl
step-owned s (disown k) = Post-bind _ (key_free s.counts (some k)) _ λ r _. refl
step-owned s new_ctx = refl
step-owned s (init_ctx j key) =
    at_ctx-Post _ s j (λ old. init_at s j key old)
      λ old. Post-bind _ (hold s.counts old key) _ λ r _. refl
step-owned s (free_ctx j) =
    at_ctx-Post _ s j (λ old. free_at s j old)
      λ old. Post-bind _ (key_free s.counts old) _ λ r _. refl
step-owned s (dup_ctx j) = at_ctx-Post _ s j (λ old. dup_at s old) copied
  where
    copied : (old : Option ℕ) → Post (λ s'. s'.owned ≡ s.owned) (dup_at s old)
    copied none = refl
    copied (some k) = Post-bind _ (up_ref s.counts k) _ λ r _. given r.1 r.0
      where
        given :
            (b : Bool) (counts : Counts)
            → Post
                (λ s'. s'.owned ≡ s.owned)
                (if b
                  then ok (record s { counts = counts; ctxs = some k ∷ s.ctxs })
                  else ok (record s { counts = counts }))
        given true counts = refl
        given false counts = refl

free_ctx-ctxs :
    (s : System) (j : ℕ) → Post (λ s'. s'.ctxs ≡ set_at s.ctxs j none) (step s (free_ctx j))
unfolding step free_at
free_ctx-ctxs s j =
    at_ctx-Post _ s j (λ old. free_at s j old)
      λ old. Post-bind _ (key_free s.counts old) _ λ r _. refl

disown-ctxs : (s : System) (k : ℕ) → Post (λ s'. s'.ctxs ≡ s.ctxs) (step s (disown k))
unfolding step
disown-ctxs s k = Post-bind _ (key_free s.counts (some k)) _ λ r _. refl

-- From the context at position `j` on, where those before hold nothing.
abbrev emptied : ℕ → List (Option ℕ) → List (Option ℕ)
emptied zero cs = cs
emptied (suc n) cs = none ∷ emptied n cs

get_elem-emptied :
    (n : ℕ) (c : Option ℕ) (cs : List (Option ℕ)) → get_elem? (emptied n (c ∷ cs)) n ≡ some c
get_elem-emptied zero c cs = refl
get_elem-emptied (suc n) c cs = get_elem-emptied n c cs

set_at-emptied :
    (n : ℕ) (c : Option ℕ) (cs : List (Option ℕ))
    → set_at (emptied n (c ∷ cs)) n none ≡ emptied (suc n) cs
set_at-emptied zero c cs = refl
set_at-emptied (suc n) c cs = ap (◌∷◌ none) (set_at-emptied n c cs)

holders-emptied : (n p : ℕ) → holders (emptied n []) p ≡ 0
holders-emptied zero p = refl
holders-emptied (suc n) p = omega (arith, holders-emptied n p)

-- Only keys before `n` have references of OpenSSL.
abbrev Below : ℕ → System → Type 0
Below n s = (p : ℕ) → n ≤ p → s.owned p ≡ 0

abbrev Drained : System → Type 0
Drained s = (s' : System) × Leads s s' × ((p : ℕ) → s'.counts p ≡ 0)

-- A call, and what is said of the system that it leads to.
call_then :
    (P : System → Type 0) (s : System) (op : Op)
    → IsBalanced s
    → IsAllowed s op
    → Post P (step s op)
    → ((s' : System) → IsBalanced s' → P s' → Drained s')
    → Drained s
call_then P s op balanced allowed post rest =
    let made = step-IsBalanced s op balanced allowed in
    let drained = rest made.0 made.2 (Post_ok P (step s op) post made.1) in
    (drained.0, next op allowed made.1 drained.1, drained.2)

Post-both : (P Q : System → Type 0) (m : Run System) → Post P m → Post Q m → Post (λ s. P s × Q s) m
Post-both P Q (ok s) p q = (p, q)
Post-both P Q (Run.err e) p q = tt
Post-both P Q ub p q = tt

update_other : (counts : Counts) (k n p : ℕ) → (p == k) ≡ false → update counts k n p ≡ counts p
update_other counts k n p h = rw (h) refl

update_self : (counts : Counts) (k n : ℕ) → update counts k n k ≡ n
update_self counts k n = rw ((==_iff k k).1 refl) refl

beyond : (k p : ℕ) → k < p → (p == k) ≡ false
beyond k p h = ground (arith, h)

-- OpenSSL gives back its references to the key `k`, and those to the keys before it.
give_back_key :
    (k j : ℕ)
    → ((s : System) → IsBalanced s → s.ctxs ≡ emptied j [] → Below k s → Drained s)
    → (m : ℕ) (s : System) → IsBalanced s
    → s.ctxs ≡ emptied j []
    → Below (suc k) s
    → s.owned k ≡ m
    → Drained s
give_back_key k j rest zero s balanced none_left below e = rest s balanced none_left lower
  where
    lower : Below k s
    lower p h = elim (Bool-cases (p == k)) [
      | inl same ↦ ap s.owned ((==_iff p k).0 same) ∙ e
      | inr other ↦ below p (above p k h other)
    ]
      where
        above : (p k : ℕ) → k ≤ p → (p == k) ≡ false → suc k ≤ p
        above p k h other = ground (arith, h, other)
give_back_key k j rest (suc m) s balanced none_left below e =
    call_then (λ s'. (s'.owned ≡ update s.owned k (s.owned k - 1)) × (s'.ctxs ≡ s.ctxs)) s
      (disown k) balanced (omega (arith, e))
      (Post-both _ _ (step s (disown k)) (step-owned s (disown k)) (disown-ctxs s k))
      λ s' balanced' (owned', ctxs').
        give_back_key k j rest m s' balanced' (ctxs' ∙ none_left)
          (λ p h.
            ap (λ counts. counts p) owned'
            ∙ update_other s.owned k (s.owned k - 1) p (beyond k p (omega (arith, h)))
            ∙ below p h)
          (ap (λ counts. counts k) owned'
            ∙ update_self s.owned k (s.owned k - 1)
            ∙ omega (arith, e))

give_back : (n j : ℕ) (s : System) → IsBalanced s → s.ctxs ≡ emptied j [] → Below n s → Drained s
give_back zero j s balanced none_left below = (
  s,
  done,
  λ p. omega (
    arith,
    balanced p,
    below p (omega arith),
    ap (λ cs. holders cs p) none_left ∙ holders-emptied j p,
  ),
)
give_back (suc k) j s balanced none_left below =
    give_back_key k j (give_back k j) (s.owned k) s balanced none_left below refl

-- The contexts from position `n` on are freed first.
free_contexts :
    (b : ℕ) (cs : List (Option ℕ)) (n : ℕ) (s : System)
    → IsBalanced s
    → s.ctxs ≡ emptied n cs
    → Below b s
    → Drained s
free_contexts b [] n s balanced here below = give_back b n s balanced here below
free_contexts b (c ∷ cs) n s balanced here below =
    call_then (λ s'. (s'.owned ≡ s.owned) × (s'.ctxs ≡ set_at s.ctxs n none)) s (free_ctx n)
      balanced (c, ap (λ l. get_elem? l n) here ∙ get_elem-emptied n c cs)
      (Post-both _ _ (step s (free_ctx n)) (step-owned s (free_ctx n)) (free_ctx-ctxs s n))
      λ s' balanced' (owned', ctxs').
        free_contexts b cs (suc n) s' balanced'
          (ctxs' ∙ ap (λ l. set_at l n none) here ∙ set_at-emptied n c cs)
          (λ p h. ap (λ counts. counts p) owned' ∙ below p h)

-- The key that a call is about.
abbrev key_of : Op → ℕ
key_of (new_key k) = k
key_of (disown k) = k
key_of _ = 0

owned_after-Below :
    (s : System) (op : Op) (n : ℕ)
    → Below n s
    → (p : ℕ) → n + suc (key_of op) ≤ p
    → owned_after s op p ≡ 0
owned_after-Below s (new_key k) n below p h =
    update_other s.owned k 1 p (beyond k p (omega (arith, h))) ∙ below p (omega (arith, h))
owned_after-Below s (disown k) n below p h =
    update_other s.owned k _ p (beyond k p (omega (arith, h))) ∙ below p (omega (arith, h))
owned_after-Below s new_ctx n below p h = below p (omega (arith, h))
owned_after-Below s (init_ctx j key) n below p h = below p (omega (arith, h))
owned_after-Below s (free_ctx j) n below p h = below p (omega (arith, h))
owned_after-Below s (dup_ctx j) n below p h = below p (omega (arith, h))

Reachable-Below : (s : System) → Reachable s → (n : ℕ) × Below n s
Reachable-Below s start = (0, λ p h. refl)
Reachable-Below s (call {s = before} op reached allowed stepped) =
    let bound = Reachable-Below before reached in
    (
      bound.0 + suc (key_of op),
      λ p h.
          ap (λ counts. counts p) (Post_ok _ (step before op) (step-owned before op) stepped)
          ∙ owned_after-Below before op bound.0 bound.1 p h,
    )

-- From every system that calls lead to, none of which asked for a reference to a key that had 2147483647 of
-- them, OpenSSL can go on with calls that it may make until no key has a
-- reference left: every key that was made is freed.
pub Reachable-drained :
    (s : System) → Reachable s → (s' : System) × Leads s s' × ((p : ℕ) → s'.counts p ≡ 0)
Reachable-drained s reached =
    let bound = Reachable-Below s reached in
    free_contexts bound.0 s.ctxs 0 s (Reachable-IsBalanced s reached) refl bound.1
