-- ===== src/Sig/Context/Params.antt =====
-- oqsprov/oqs_sig.c: the four initialisations by their names, and the parameters of a digest context, which
-- OpenSSL's functions answer.
use Prim.Native.String.{String}
use oqs_provider.Base.{Bool, false, Option, none, some}
use oqs_provider.Run.{Run}
use oqs_provider.Extern.{Evp, EvpMd, Oqs}
use oqs_provider.Key.{OqsxKey}
use oqs_provider.Sig.Context.{Ctx, op_sign, op_verify, signverify_init, digest_signverify_init}

module _ (evp : Evp) (md : EvpMd) (oqs : Oqs) where
  open evp use {Pkey}
  open md use {Md, MdCtx}

  -- oqs_sig_sign_init and oqs_sig_verify_init
  unfoldable pub sign_init : Ctx evp md oqs → Option (OqsxKey Pkey) → Ctx evp md oqs × Bool
  unfolding signverify_init
  sign_init ctx key = signverify_init evp md oqs ctx key op_sign

  unfoldable pub verify_init : Ctx evp md oqs → Option (OqsxKey Pkey) → Ctx evp md oqs × Bool
  unfolding signverify_init
  verify_init ctx key = signverify_init evp md oqs ctx key op_verify

  -- oqs_sig_digest_sign_init and oqs_sig_digest_verify_init
  unfoldable pub digest_sign_init :
      Ctx evp md oqs
      → (mdname : Option String) → Option (OqsxKey Pkey)
      → Run (Ctx evp md oqs × Bool)
  unfolding digest_signverify_init
  digest_sign_init ctx mdname key = digest_signverify_init evp md oqs ctx mdname key op_sign

  unfoldable pub digest_verify_init :
      Ctx evp md oqs
      → (mdname : Option String) → Option (OqsxKey Pkey)
      → Run (Ctx evp md oqs × Bool)
  unfolding digest_signverify_init
  digest_verify_init ctx mdname key = digest_signverify_init evp md oqs ctx mdname key op_verify

  -- oqs_sig_get_ctx_md_params and oqs_sig_set_ctx_md_params, with EVP_MD_CTX_get_params and _set_params
  unfoldable pub get_ctx_md_params :
      {Params : Type 0} → (MdCtx → Params → Params × Bool) → Ctx evp md oqs → Params → Params × Bool
  get_ctx_md_params get ctx params = elim ctx.mdctx [
    | none ↦ (params, false)
    | some c ↦ get c params
  ]

  unfoldable pub set_ctx_md_params :
      {Params : Type 0}
      → (MdCtx → Params → MdCtx × Bool)
      → Ctx evp md oqs
      → Params
      → Ctx evp md oqs × Bool
  set_ctx_md_params set ctx params = elim ctx.mdctx [
    | none ↦ (ctx, false)
    | some c ↦ (record ctx { mdctx = some (set c params).0 }, (set c params).1)
  ]

  -- oqs_sig_gettable_ctx_md_params and oqs_sig_settable_ctx_md_params: the list that OpenSSL has of the digest
  unfoldable pub listed_ctx_md_params :
      {Listed : Type 0} → (Md → Listed) → Ctx evp md oqs → Option Listed
  listed_ctx_md_params list ctx = elim ctx.md [ none ↦ none | some m ↦ some (list m) ]
