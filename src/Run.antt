-- ===== src/Run.antt =====
-- The result of a C function: it returns, or it fails with the last reason that it raises, or it
-- leaves defined behaviour (an access outside of a buffer, a null or unset pointer).
-- The reasons are the codes of oqsprov/oqs_prov.h and those of OpenSSL that the code raises.
use oqs_provider.Base.{◌≡◌, refl, subst, Bool, true, false, Option, none, some}

pub data Reason : Type 0 where
  invalid_digest invalid_size invalid_key unsupported missing_oid obj_create_err : Reason
  invalid_encoding sign_error lib_create_err no_private_key buffer_length_wrong : Reason
  signing_failed wrong_parameters verify_error evpinfo_missing : Reason
  malloc_failure fatal passed_null_parameter passed_invalid_argument unable_to_get_passphrase
        not_a_private_key not_a_public_key unexpected_null silent :
      Reason

pub data Run {ℓ} (A : Type ℓ) : Type ℓ where
  ok : A → Run A
  err : Reason → Run A
  ub : Run A

infixl 5 ◌>>=◌ ◌>>◌
abbrev pub ◌>>=◌ {ℓ κ} : {A : Type ℓ} {B : Type κ} → Run A → (A → Run B) → Run B
ok a >>= f = f a
err e >>= f = err e
ub >>= f = ub

abbrev pub ◌>>◌ {ℓ} : {B : Type ℓ} → Run (Unit {0}) → Run B → Run B
m >> k = m >>= λ _. k

-- `if (!test) { ERR_raise(reason); goto err; }`
abbrev pub ensure : Bool → Reason → Run (Unit {0})
ensure true e = ok tt
ensure false e = err e

pub ensure-true : (b : Bool) (e : Reason) {u : Unit {0}} → ensure b e ≡ ok u → b ≡ true
ensure-true true e h = refl
ensure-true false e h = absurd cc

-- A null result fails with a reason.
abbrev pub or_err {ℓ} : {A : Type ℓ} → Reason → Option A → Run A
or_err e none = err e
or_err e (some a) = ok a

pub or_err_ok {ℓ} :
    {A : Type ℓ} (e : Reason) (o : Option A) {a : A} → or_err e o ≡ ok a → o ≡ some a
or_err_ok e none h = absurd cc
or_err_ok e (some b) h = cc

-- A property of what a run returns, if it returns.
abbrev pub Post {ℓ κ} : {A : Type ℓ} → (A → Type κ) → Run A → Type κ
Post P (ok a) = P a
Post P (err e) = Unit
Post P ub = Unit

pub Post-bind {ℓ κ ι} :
    {A : Type ℓ} {B : Type κ} (P : B → Type ι) (m : Run A) (f : A → Run B)
    → ((a : A) → m ≡ ok a → Post P (f a))
    → Post P (m >>= f)
Post-bind P (ok a) f h = h a refl
Post-bind P (err e) f h = tt
Post-bind P ub f h = tt

pub ok_injective {ℓ} : {A : Type ℓ} {a b : A} → ok a ≡ ok b → a ≡ b
ok_injective e = cc

pub Post_ok {ℓ κ} : {A : Type ℓ} (P : A → Type κ) (r : Run A) {a : A} → Post P r → r ≡ ok a → P a
Post_ok P (ok a) h e = subst P (ok_injective e) h
Post_ok P (err r) h e = absurd cc
Post_ok P ub h e = absurd cc

pub Post-map {ℓ κ ι} :
    {A : Type ℓ} (P : A → Type κ) (Q : A → Type ι) (m : Run A)
    → ((a : A) → P a → Q a)
    → Post P m
    → Post Q m
Post-map P Q (ok a) f h = f a h
Post-map P Q (err e) f h = tt
Post-map P Q ub f h = tt

pub Post-chain {ℓ κ ι ο} :
    {A : Type ℓ} {B : Type κ} (P : A → Type ι) (Q : B → Type ο) (m : Run A) (f : A → Run B)
    → Post P m
    → ((a : A) → P a → Post Q (f a))
    → Post Q (m >>= f)
Post-chain P Q (ok a) f h k = k a h
Post-chain P Q (err e) f h k = tt
Post-chain P Q ub f h k = tt
