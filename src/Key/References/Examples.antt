-- ===== src/Key/References/Examples.antt =====
-- A key, a context that is given it, and the owner's reference given back.
use oqs_provider.Base.{◌<◌, ◌+◌, ◌≡◌, refl, some, none, [], ◌∷◌, arith}
use oqs_provider.Run.{ok}
use oqs_provider.Key.References.{
  System, new_key, new_ctx, init_ctx, update, step, at_ctx, init_at, hold, up_ref, key_free,
}
use oqs_provider.Key.References.Balance.{IsBalanced, step-IsBalanced}
use oqs_provider.Base.{ℕ}
use oqs_provider.Key.References.Drain.{Leads, Reachable-drained}
use oqs_provider.Key.References.Reachable.{empty, Reachable, start, call, Reachable-live}

abbrev one_key : System
one_key = record empty { counts = update empty.counts 5 1; owned = update empty.owned 5 1 }

abbrev with_ctx : System
with_ctx = record one_key { ctxs = none ∷ [] }

abbrev held : System
held = record with_ctx {
  counts = update with_ctx.counts 5 (with_ctx.counts 5 + 1);
  ctxs = some 5 ∷ [];
}

held-Reachable : Reachable held
unfolding step at_ctx init_at hold up_ref key_free
held-Reachable =
    call {s = with_ctx} (init_ctx 0 (some 5))
      (call {s = one_key} new_ctx (call {s = empty} (new_key 5) start refl refl) tt refl)
      (omega arith, omega arith, (none, refl)) refl

Reachable-live_example : 0 < held.counts 5
Reachable-live_example = Reachable-live held 0 5 held-Reachable refl

with_ctx-IsBalanced : IsBalanced with_ctx
with_ctx-IsBalanced p = omega arith

step-IsBalanced_example :
    (s' : System) × (step with_ctx (init_ctx 0 (some 5)) ≡ ok s') × IsBalanced s'
step-IsBalanced_example =
    step-IsBalanced with_ctx (init_ctx 0 (some 5)) with_ctx-IsBalanced
      (omega arith, omega arith, (none, refl))

Reachable-drained_example : (s' : System) × Leads held s' × ((p : ℕ) → s'.counts p ≡ 0)
Reachable-drained_example = Reachable-drained held held-Reachable
