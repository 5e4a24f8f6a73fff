-- ===== src/KeyMgmt/Match.antt =====
-- When two keys match.
use Prim.Native.String.{String}
use text.Mathlib.Text.{◌==◌ as str_eq}
use text.Mathlib.TextEquality.{eq_iff}
use mathlib.Core.Path.{ap₂}
use oqs_provider.Base.{
  ℕ, ◌≡◌, ◌↔◌, refl, sym, ap, ◌∙◌, Bool, true, false, ◌&&◌, not, Option, none, some, arith, length,
  ◌==◌, [], ◌∷◌, ==_iff, if◌then◌else◌,
}
use oqs_provider.Run.{ok_injective, ok, ◌>>=◌}
use oqs_provider.Memory.{Bytes}
use oqs_provider.Memory.Laws.{read_rest}
use oqs_provider.Key.{OqsxKey}
use oqs_provider.KeyMgmt.{
  Selection, same_bytes, memcmp_equal, differs, equal_or_absent, match_private, match_public,
  key_match,
}

and_true : (a b : Bool) → (a && b) ≡ true → (a ≡ true) × (b ≡ true)
and_true true b h = (refl, h)
and_true false b h = absurd cc

same_bytes_self : (bs : Bytes) → same_bytes bs bs ≡ true
unfolding same_bytes
same_bytes_self [] = refl
same_bytes_self (x ∷ xs) = ground (arith, same_bytes_self xs)

same_bytes_sound : (a b : Bytes) → same_bytes a b ≡ true → a ≡ b
unfolding same_bytes
same_bytes_sound [] [] h = refl
same_bytes_sound [] (y ∷ ys) h = absurd cc
same_bytes_sound (x ∷ xs) [] h = absurd cc
same_bytes_sound (x ∷ xs) (y ∷ ys) h =
    let both = and_true (x == y) (same_bytes xs ys) h in
    ap₂ ◌∷◌ ((==_iff x y).0 both.0) (same_bytes_sound xs ys both.1)

branch :
    (same_name same_key : Bool)
    → (if not same_name then ok false else ok same_key) ≡ ok (same_name && same_key)
branch true same_key = refl
branch false same_key = refl

memcmp_equal-all :
    (a b : Bytes) (n : ℕ) → n ≡ length a → n ≡ length b → memcmp_equal a b n ≡ ok (same_bytes a b)
unfolding memcmp_equal
memcmp_equal-all a b n e e' = rw (read_rest [] a 0 n refl e, read_rest [] b 0 n refl e')

-- A buffer that is there has the length that is told.
abbrev pub HasLength : Option Bytes → ℕ → Type 0
HasLength none n = Unit {0}
HasLength (some buf) n = n ≡ length buf

equal_or_absent_self :
    (buf : Option Bytes) (n : ℕ) → HasLength buf n → equal_or_absent buf buf n ≡ ok true
unfolding equal_or_absent
equal_or_absent_self none n h = refl
equal_or_absent_self (some b) n h = memcmp_equal-all b b n h h ∙ ap ok (same_bytes_self b)

differs_self : (buf : Option Bytes) (name : String) → differs buf buf name name ≡ false
differs_self none name = rw ((eq_iff name name).1 refl)
differs_self (some b) name = rw ((eq_iff name name).1 refl)

all_pass :
    (p q : Bool)
    → ((if p && not q then ok true else ok true) >>= λ before.
        if q then (if before then ok true else ok false) else ok before)
      ≡ ok true
all_pass true true = refl
all_pass true false = refl
all_pass false true = refl
all_pass false false = refl

module _ {Pkey : Type 0} where
  module _ (key1 key2 : OqsxKey Pkey) (pub1 pub2 : Bytes) (has1 : key1.pubkey ≡ some pub1)
      (has2 : key2.pubkey ≡ some pub2) (len1 : key1.pubkeylen ≡ length pub1)
      (len2 : key1.pubkeylen ≡ length pub2) where
    key_match-computed :
        (private other : Bool)
        → key_match key1 key2 (record {
          private_key = private;
          public_key = true;
          domain_parameters = false;
          other_parameters = other;
        })
          ≡ ok (str_eq key1.tls_name key2.tls_name && same_bytes pub1 pub2)
    unfolding key_match match_public equal_or_absent
    key_match-computed true other =
        simp (has1, has2, memcmp_equal-all pub1 pub2 key1.pubkeylen len1 len2)
          (branch (str_eq key1.tls_name key2.tls_name) (same_bytes pub1 pub2))
    key_match-computed false other =
        simp (has1, has2, memcmp_equal-all pub1 pub2 key1.pubkeylen len1 len2)
          (branch (str_eq key1.tls_name key2.tls_name) (same_bytes pub1 pub2))

    -- Two keys that have public keys of the length that the first one tells, with the public keys selected and
    -- the domain parameters not, match exactly if they have the same name and the same public key,
    -- whether the private keys are selected or not: they are not looked at.
    pub key_match_iff :
        (private other : Bool)
        → (key_match key1 key2 (record {
          private_key = private;
          public_key = true;
          domain_parameters = false;
          other_parameters = other;
        })
            ≡ ok true)
          ↔ ((key1.tls_name ≡ key2.tls_name) × (pub1 ≡ pub2))
    key_match_iff private other = (
      λ matched.
          let both =
            and_true (str_eq key1.tls_name key2.tls_name) (same_bytes pub1 pub2)
              (ok_injective (sym (key_match-computed private other) ∙ matched)) in
          ((eq_iff key1.tls_name key2.tls_name).0 both.0, same_bytes_sound pub1 pub2 both.1),
      λ same.
          key_match-computed private other
          ∙ ap ok
              (rw ((eq_iff key1.tls_name key2.tls_name).1 same.0, ← same.1, same_bytes_self pub1)),
    )

  -- A key whose buffers have the lengths that it tells matches itself, whatever is selected.
  pub key_match_self :
      (key : OqsxKey Pkey) (selection : Selection)
      → HasLength key.pubkey key.pubkeylen
      → HasLength key.privkey key.privkeylen
      → key_match key key selection ≡ ok true
  unfolding key_match match_public match_private
  key_match_self key selection hp hs =
      simp
        (
          differs_self key.privkey key.tls_name,
          differs_self key.pubkey key.tls_name,
          equal_or_absent_self key.privkey key.privkeylen hs,
          equal_or_absent_self key.pubkey key.pubkeylen hp,
        )
        (all_pass selection.private_key selection.public_key)
