-- ===== src/Sig/Context/Reuse.antt =====
-- What a signature context keeps from one use to the next.
use oqs_provider.Base.{ℕ, ◌<◌, ◌≡◌, ap, ◌∙◌, Bool, true, false, Option, none, some, ◌++◌, length}
use oqs_provider.Run.{ok, ◌>>=◌}
use oqs_provider.Memory.{Bytes}
use oqs_provider.Extern.{Evp, EvpMd, Oqs}
use oqs_provider.Key.{OqsxKey}
use oqs_provider.Memory.{is_null}
use oqs_provider.Sig.{sign}
use oqs_provider.Sig.Context.{
  op_sign, Ctx, signverify_init, setup_md, setup_after, init_md, digest_signverify_init,
  digest_update, digest_sign_final, sign_final_with,
}
use oqs_provider.Sig.Context.Streaming.{
  Collected, IsAble, update-Collected, sign_final-Collected, update-fields,
}

module _ (evp : Evp) (md : EvpMd) (oqs : Oqs) where
  sign_final-ctx :
      (ctx : Ctx evp md oqs) (sig : Option Bytes) (siglen sigsize seed : ℕ)
      → ctx.mdctx ≡ none
      → (digest_sign_final evp md oqs ctx sig siglen sigsize seed).0
        ≡ record ctx { flag_allow_md = true }
  unfolding digest_sign_final sign_final_with
  sign_final-ctx ctx sig siglen sigsize seed no_md = simp (no_md, sign_final_with)

  -- An initialisation without a digest clears nothing.
  init-no_md :
      (ctx : Ctx evp md oqs) (key : OqsxKey evp.Pkey)
      → is_null key.privkey ≡ false
      → digest_signverify_init evp md oqs ctx none (some key) op_sign
        ≡ ok (record ctx { flag_allow_md = true; sig = some key; operation = op_sign }, true)
  unfolding digest_signverify_init signverify_init setup_after init_md setup_md
  init-no_md ctx key has_key = rw (has_key, setup_after)

  module _ (malloc : ℕ → Bool) (able : IsAble evp md oqs malloc) where
    -- A context that has collected `bs`, has no digest, and is used to sign, keeps `bs`: when it is then
    -- initialised for another signature without a digest and `c` is passed in, `bs ++ c` is what is signed,
    -- where every allocation that is not of size 0 succeeds.
    pub sign_final-again :
        (ctx : Ctx evp md oqs) (bs c : Bytes) (key : OqsxKey evp.Pkey) (sig : Option Bytes)
        (siglen sigsize seed : ℕ)
        → Collected evp md oqs ctx bs
        → 0 < length bs
        → is_null key.privkey ≡ false
        → (digest_signverify_init evp md oqs
              (digest_sign_final evp md oqs ctx sig siglen sigsize seed).0
              none
              (some key)
              op_sign
            >>= λ r.
                ok
                  (digest_sign_final evp md oqs
                    (digest_update evp md oqs malloc r.0 c).0
                    sig
                    siglen
                    sigsize
                    seed).1)
          ≡ ok (sign evp oqs (some key) sig siglen sigsize (some (bs ++ c)) (length (bs ++ c)) seed)
    sign_final-again ctx bs c key sig siglen sigsize seed h some_data has_key =
        rw (sign_final-ctx ctx sig siglen sigsize seed h.no_md) (
          rw (init-no_md (record ctx { flag_allow_md = true }) key has_key) (
            ap ok (
              sign_final-Collected evp md oqs
                (digest_update evp md oqs malloc
                  (record ctx { flag_allow_md = true; sig = some key; operation = op_sign }) c).0
                (bs ++ c) sig siglen sigsize seed
                (update-Collected evp md oqs malloc able
                  (record ctx { flag_allow_md = true; sig = some key; operation = op_sign }) bs c
                  (record { no_md = h.no_md; stored = h.stored; sized = h.sized }) some_data)
              ∙ ap (λ k. sign evp oqs k sig siglen sigsize (some (bs ++ c)) (length (bs ++ c)) seed)
                  (update-fields evp md oqs malloc
                    (record ctx { flag_allow_md = true; sig = some key; operation = op_sign })
                    c).0)))
