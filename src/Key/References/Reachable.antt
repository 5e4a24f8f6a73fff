-- ===== src/Key/References/Reachable.antt =====
-- The systems that calls lead to.
use oqs_provider.Base.{ℕ, ◌<◌, ◌≡◌, sym, ◌∙◌, subst, some, [], get_elem?, arith}
use oqs_provider.Run.{ok, ok_injective}
use oqs_provider.Key.References.{System, Op, step}
use oqs_provider.Key.References.Balance.{
  IsBalanced, IsAllowed, step-IsBalanced, balanced_live, holds_self,
}

-- No key, no reference and no context.
abbrev pub empty : System
empty = record { counts = λ p. 0; owned = λ p. 0; ctxs = [] }

pub data Reachable : System → Type 0 where
  start : Reachable empty
  call : {s s' : System} (op : Op) → Reachable s → IsAllowed s op → step s op ≡ ok s' → Reachable s'

pub Reachable-IsBalanced : (s : System) → Reachable s → IsBalanced s
Reachable-IsBalanced s start = λ p. omega arith
Reachable-IsBalanced s (call {s = before} op reached allowed stepped) =
    let made = step-IsBalanced before op (Reachable-IsBalanced before reached) allowed in
    subst IsBalanced (ok_injective (sym made.1 ∙ stepped)) made.2

-- After any sequence of calls that OpenSSL may make, none of them asking for a reference to a key that has
-- 2147483647 of them already, a key that a context holds has not been freed.
pub Reachable-live :
    (s : System) (j k : ℕ) → Reachable s → get_elem? s.ctxs j ≡ some (some k) → 0 < s.counts k
Reachable-live s j k reached held =
    omega (arith, balanced_live s j (some k) (Reachable-IsBalanced s reached) held k, holds_self k)
