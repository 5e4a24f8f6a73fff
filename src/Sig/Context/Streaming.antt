-- ===== src/Sig/Context/Streaming.antt =====
-- DigestSign and DigestVerify without a digest: the collected data are what is signed, and what a
-- context keeps from one use to the next.
use Prim.Native.String.{String}
use oqs_provider.Base.{
  ℕ, ◌+◌, ◌<◌, ◌≡◌, refl, ap, ◌∙◌, Bool, true, false, Option, none, some, List, [], ◌∷◌, ◌++◌,
  length, take, take_all, append_assoc, length-append, arith, append-nil,
}
use oqs_provider.Run.{ok}
use oqs_provider.Memory.{Bytes}
use oqs_provider.Extern.{Evp, EvpMd, Oqs}
use oqs_provider.Sig.{sign}
use oqs_provider.Sig.Context.{
  Ctx, digest_update, collect, update_or_collect, digest_sign_final, sign_final_with,
  set_ctx_params, set_digest,
}

-- The pieces of a message, one after the other.
abbrev pub joined : List Bytes → Bytes
joined [] = []
joined (c ∷ cs) = c ++ joined cs

module _ (evp : Evp) (md : EvpMd) (oqs : Oqs) where
  -- One call of the update function for each piece.
  unfoldable pub update_all : (malloc : ℕ → Bool) → Ctx evp md oqs → List Bytes → Ctx evp md oqs
  update_all malloc ctx [] = ctx
  update_all malloc ctx (c ∷ cs) = update_all malloc (digest_update evp md oqs malloc ctx c).0 cs

  -- What was collected is `bs`, and there is no digest.
  pub record Collected (ctx : Ctx evp md oqs) (bs : Bytes) : Type 0 where
    pub no_md : ctx.mdctx ≡ none
    pub stored : ctx.mddata ≡ some bs
    pub sized : ctx.mdsize ≡ length bs

  -- An allocation succeeds that is not of size 0.
  abbrev pub IsAble : (malloc : ℕ → Bool) → Type 0
  IsAble malloc = (n : ℕ) → 0 < n → malloc n ≡ true

  module _ (malloc : ℕ → Bool) where
    collect-fields :
        (ctx : Ctx evp md oqs) (old : Option Bytes) (c : Bytes)
        → ((collect evp md oqs malloc ctx old c).0.sig ≡ ctx.sig)
          × ((collect evp md oqs malloc ctx old c).0.flag_allow_md ≡ ctx.flag_allow_md)
          × ((collect evp md oqs malloc ctx old c).0.mdctx ≡ ctx.mdctx)
    unfolding collect
    collect-fields ctx none c = ground arith
    collect-fields ctx (some old) c = ground arith

    -- An update keeps the key and forbids to change the digest.
    pub update-fields :
        (ctx : Ctx evp md oqs) (c : Bytes)
        → ((digest_update evp md oqs malloc ctx c).0.sig ≡ ctx.sig)
          × ((digest_update evp md oqs malloc ctx c).0.flag_allow_md ≡ false)
    unfolding digest_update update_or_collect
    update-fields ctx c = go ctx.mdctx
      where
        go :
            (o : Option md.MdCtx)
            → ((update_or_collect evp md oqs malloc
                  (record ctx { flag_allow_md = false })
                  o
                  c).0.sig
                ≡ ctx.sig)
              × ((update_or_collect evp md oqs malloc
                    (record ctx { flag_allow_md = false })
                    o
                    c).0.flag_allow_md
                  ≡ false)
        go none =
            let f = collect-fields (record ctx { flag_allow_md = false }) ctx.mddata c in (f.0, f.1)
        go (some m) = ground arith

    update_all-sig :
        (cs : List Bytes) (ctx : Ctx evp md oqs) → (update_all malloc ctx cs).sig ≡ ctx.sig
    unfolding update_all
    update_all-sig [] ctx = refl
    update_all-sig (c ∷ cs) ctx =
        update_all-sig cs (digest_update evp md oqs malloc ctx c).0 ∙ (update-fields ctx c).0

    -- Once data were passed in, whether they could be stored or not, the digest cannot be changed: parameters
    -- that have a digest, with properties or without, are refused and the context is left alone.
    pub set_ctx_params-update :
        (ctx : Ctx evp md oqs) (c : Bytes) (p : Option String) (properties : Option (Option String))
        → set_ctx_params evp md oqs
            (digest_update evp md oqs malloc ctx c).0
            (some (record { digest = some p; properties = properties }))
          ≡ ok ((digest_update evp md oqs malloc ctx c).0, false)
    unfolding set_ctx_params set_digest
    set_ctx_params-update ctx c p properties = simp ((update-fields ctx c).1, set_digest)

  pub sign_final-Collected :
      (ctx : Ctx evp md oqs) (bs : Bytes) (sig : Option Bytes) (siglen sigsize seed : ℕ)
      → Collected ctx bs
      → (digest_sign_final evp md oqs ctx sig siglen sigsize seed).1
        ≡ sign evp oqs ctx.sig sig siglen sigsize (some bs) (length bs) seed
  unfolding digest_sign_final sign_final_with
  sign_final-Collected ctx bs sig siglen sigsize seed h =
      simp (h.no_md, sign_final_with, h.stored, h.sized)

  module _ (malloc : ℕ → Bool) (able : IsAble malloc) where
    pub update-Collected :
        (ctx : Ctx evp md oqs) (bs c : Bytes)
        → Collected ctx bs
        → 0 < length bs
        → Collected (digest_update evp md oqs malloc ctx c).0 (bs ++ c)
    unfolding digest_update update_or_collect collect
    update-Collected ctx bs c h some_data =
        simp (h.no_md, digest_update, update_or_collect)
          (simp (h.stored, collect) (rw (able (ctx.mdsize + length c) room) made))
      where
        room : 0 < ctx.mdsize + length c
        room = omega (arith, h.sized, some_data)

        made :
            Collected
              (record ctx {
                flag_allow_md = false;
                mdctx = none;
                mddata = some (take ctx.mdsize bs ++ c);
                mdsize = ctx.mdsize + length c;
              })
              (bs ++ c)
        made = record {
          no_md = refl;
          stored = rw (h.sized, take_all) refl;
          sized = omega (arith, h.sized, length-append bs c);
        }

    update_all-Collected :
        (cs : List Bytes) (ctx : Ctx evp md oqs) (bs : Bytes)
        → Collected ctx bs
        → 0 < length bs
        → Collected (update_all malloc ctx cs) (bs ++ joined cs)
    unfolding update_all
    update_all-Collected [] ctx bs h some_data = rw append-nil h
    update_all-Collected (c ∷ cs) ctx bs h some_data = rw (← append_assoc bs c (joined cs)) (
        update_all-Collected cs (digest_update evp md oqs malloc ctx c).0 (bs ++ c)
          (update-Collected ctx bs c h some_data) (omega (arith, some_data, length-append bs c)))

    update-first :
        (ctx : Ctx evp md oqs) (c : Bytes)
        → ctx.mdctx ≡ none
        → ctx.mddata ≡ none
        → 0 < length c
        → Collected (digest_update evp md oqs malloc ctx c).0 c
    unfolding digest_update update_or_collect collect
    update-first ctx c no_md no_data some_data =
        simp (no_md, digest_update, update_or_collect)
          (simp (no_data, collect) (rw (able (length c) some_data) made))
      where
        made :
            Collected
              (record ctx {
                flag_allow_md = false;
                mdctx = none;
                mddata = some c;
                mdsize = length c;
              })
              c
        made = record { no_md = refl; stored = refl; sized = refl }

    -- Signing data that come in pieces, on a context with no digest and nothing collected, is signing their
    -- concatenation at once: where allocations of more than nothing succeed and the first piece is not empty.
    pub sign_final-update_all :
        (ctx : Ctx evp md oqs) (c : Bytes) (cs : List Bytes) (sig : Option Bytes)
        (siglen sigsize seed : ℕ)
        → ctx.mdctx ≡ none
        → ctx.mddata ≡ none
        → 0 < length c
        → (digest_sign_final evp md oqs (update_all malloc ctx (c ∷ cs)) sig siglen sigsize seed).1
          ≡ sign evp oqs ctx.sig sig siglen sigsize
              (some (joined (c ∷ cs)))
              (length (joined (c ∷ cs)))
              seed
    unfolding update_all
    sign_final-update_all ctx c cs sig siglen sigsize seed no_md no_data some_data =
        sign_final-Collected (update_all malloc (digest_update evp md oqs malloc ctx c).0 cs)
          (c ++ joined cs) sig siglen sigsize seed
          (update_all-Collected cs (digest_update evp md oqs malloc ctx c).0 c
            (update-first ctx c no_md no_data some_data) some_data)
        ∙ ap
            (λ k.
              sign evp oqs k sig siglen sigsize (some (c ++ joined cs)) (length (c ++ joined cs))
                seed)
            (update_all-sig malloc cs (digest_update evp md oqs malloc ctx c).0
              ∙ (update-fields malloc ctx c).0)
