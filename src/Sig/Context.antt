-- ===== src/Sig/Context.antt =====
-- oqsprov/oqs_sig.c: the signature context, from its initialisation to DigestSign and DigestVerify.
-- The reference counts of its key are in Key/References. A function gives the context back with `true`
-- for the return value 1.
pub mod Streaming
pub mod Reuse
pub mod Params
use Prim.Native.String.{String}
use oqs_provider.Base.{
  ℕ, ◌+◌, Bool, true, false, ◌&&◌, ◌||◌, not, Option, none, some, List, [], ◌∷◌, ◌++◌,
  if◌then◌else◌, length, take,
}
use oqs_provider.Run.{Run, ok, err, ub, silent, ◌>>=◌}
use oqs_provider.Memory.{Bytes}
use oqs_provider.Extern.{Evp, EvpMd, Oqs}
use oqs_provider.Key.{OqsxKey, deref}
use oqs_provider.Memory.{is_null}
use oqs_provider.Sig.{sign, verify}

pub data Operation : Type 0 where
  op_none op_sign op_verify : Operation

-- `aid_len` is the length of `aid`.
pub record SigCtx (Pkey Md MdCtx : Type 0) : Type 0 where
  pub propq : Option String
  pub sig : Option (OqsxKey Pkey)
  pub flag_allow_md : Bool
  pub mdname : String
  pub aid : Option Bytes
  pub md : Option Md
  pub mdctx : Option MdCtx
  pub mdsize : ℕ
  pub mddata : Option Bytes
  pub operation : Operation

-- OSSL_SIGNATURE_PARAM_DIGEST and _PROPERTIES in a parameter list: absent, or present with a string
-- that fits the buffer or not.
pub record MdParams : Type 0 where
  pub digest : Option (Option String)
  pub properties : Option (Option String)

abbrev or_else {ℓ} : {A : Type ℓ} → Option A → Option A → Option A
or_else (some a) b = some a
or_else none b = b

module _ (evp : Evp) (md : EvpMd) (oqs : Oqs) where
  open evp use {Pkey}
  open md use {Md, MdCtx}

  abbrev pub Ctx : Type 0
  Ctx = SigCtx Pkey Md MdCtx

  -- oqs_sig_newctx, where the allocations succeed.
  unfoldable pub newctx : Option String → Ctx
  newctx propq = record {
    propq = propq;
    sig = none;
    flag_allow_md = false;
    mdname = "";
    aid = none;
    md = none;
    mdctx = none;
    mdsize = 0;
    mddata = none;
    operation = op_none;
  }

  use_md : Ctx → String → Option Md → Run (Ctx × Bool)
  use_md ctx mdname none = ok (ctx, false)
  use_md ctx mdname (some m) = if md.nid_is_undef m then ok (ctx, false) else do
    key ← deref ctx.sig
    ok (
      record ctx {
        mdctx = none;
        aid = md.algorithm_id key.tls_name;
        md = some m;
        mdname = md.name_prefix mdname;
      },
      true,
    )

  -- oqs_sig_setup_md
  unfoldable pub setup_md : Ctx → (mdname mdprops : Option String) → Run (Ctx × Bool)
  unfolding use_md
  setup_md ctx none mdprops = ok (ctx, true)
  setup_md ctx (some mdname) mdprops =
      use_md ctx mdname (md.fetch mdname (or_else mdprops ctx.propq))

  abbrev lacks : Operation → OqsxKey Pkey → Bool
  lacks op_sign key = is_null key.privkey
  lacks op_verify key = is_null key.pubkey
  lacks op_none key = false

  -- oqs_sig_signverify_init, which keeps the key even where it lacks the half that is needed.
  unfoldable pub signverify_init : Ctx → Option (OqsxKey Pkey) → Operation → Ctx × Bool
  signverify_init ctx none operation = (ctx, false)
  signverify_init ctx (some key) operation = (
    record ctx { sig = some key; operation = operation; flag_allow_md = true },
    not (lacks operation key),
  )

  start_md : Ctx → Run (Ctx × Bool)
  start_md ctx = do
    m ← deref ctx.md
    elim (md.digest_init m) [
      | none ↦ ok (record ctx { mdctx = none; md = none }, false)
      | some c ↦ ok (record ctx { mdctx = some c }, true)
    ]

  -- `if (mdname != NULL)`, after `setup_md` returned.
  init_md : Option String → Ctx × Bool → Run (Ctx × Bool)
  unfolding start_md
  init_md mdname (ctx, false) = ok (ctx, false)
  init_md none (ctx, true) = ok (ctx, true)
  init_md (some mdname) (ctx, true) = start_md ctx

  setup_after : Option String → Ctx × Bool → Run (Ctx × Bool)
  unfolding init_md
  setup_after mdname (ctx, false) = ok (ctx, false)
  setup_after mdname (ctx, true) = do r ← setup_md ctx mdname none; init_md mdname r

  -- oqs_sig_digest_signverify_init: without a digest, neither the digest context nor the collected data
  -- of an earlier use are cleared.
  unfoldable pub digest_signverify_init :
      Ctx → (mdname : Option String) → Option (OqsxKey Pkey) → Operation → Run (Ctx × Bool)
  unfolding setup_after
  digest_signverify_init ctx mdname key operation =
      setup_after mdname (signverify_init (record ctx { flag_allow_md = true }) key operation)

  -- The data that are collected where there is no digest. `malloc` tells whether an allocation of a
  -- size succeeds.
  collect : (malloc : ℕ → Bool) → Ctx → Option Bytes → Bytes → Ctx × Bool
  collect malloc ctx none data' =
      if malloc (length data')
      then (record ctx { mddata = some data'; mdsize = length data' }, true)
      else (record ctx { mddata = none }, false)
  collect malloc ctx (some old) data' =
      if malloc (ctx.mdsize + length data')
      then (
        record ctx {
          mddata = some (take ctx.mdsize old ++ data');
          mdsize = ctx.mdsize + length data';
        },
        true,
      )
      else (ctx, false)

  update_or_collect : (malloc : ℕ → Bool) → Ctx → Option MdCtx → Bytes → Ctx × Bool
  unfolding collect
  update_or_collect malloc ctx none data' = collect malloc ctx ctx.mddata data'
  update_or_collect malloc ctx (some c) data' = elim (md.digest_update c data') [
    | none ↦ (ctx, false)
    | some c' ↦ (record ctx { mdctx = some c' }, true)
  ]

  -- oqs_sig_digest_signverify_update
  unfoldable pub digest_update : (malloc : ℕ → Bool) → Ctx → Bytes → Ctx × Bool
  unfolding update_or_collect
  digest_update malloc ctx data' =
      update_or_collect malloc (record ctx { flag_allow_md = false }) ctx.mdctx data'

  sign_digest :
      Ctx
      → Option Bytes
      → (siglen sigsize seed : ℕ) → Option (Bytes × MdCtx)
      → Ctx × Run (Option Bytes × ℕ)
  sign_digest ctx sig siglen sigsize seed none = (ctx, err silent)
  sign_digest ctx sig siglen sigsize seed (some (digest, c)) = (
    record ctx { mdctx = some c; flag_allow_md = true },
    sign evp oqs ctx.sig sig siglen sigsize (some digest) (length digest) seed,
  )

  sign_final_with :
      Ctx → Option MdCtx → Option Bytes → (siglen sigsize seed : ℕ) → Ctx × Run (Option Bytes × ℕ)
  unfolding sign_digest
  sign_final_with ctx (some c) (some sig) siglen sigsize seed =
      sign_digest ctx (some sig) siglen sigsize seed (md.digest_final c)
  -- only the size is asked for, and `digest` is not read
  sign_final_with ctx (some c) none siglen sigsize seed = (
    record ctx { flag_allow_md = true },
    sign evp oqs ctx.sig none siglen sigsize (some []) 0 seed,
  )
  sign_final_with ctx none sig siglen sigsize seed = (
    record ctx { flag_allow_md = true },
    sign evp oqs ctx.sig sig siglen sigsize ctx.mddata ctx.mdsize seed,
  )

  -- oqs_sig_digest_sign_final
  unfoldable pub digest_sign_final :
      Ctx → Option Bytes → (siglen sigsize seed : ℕ) → Ctx × Run (Option Bytes × ℕ)
  unfolding sign_final_with
  digest_sign_final ctx sig siglen sigsize seed =
      sign_final_with ctx ctx.mdctx sig siglen sigsize seed

  verify_digest : Ctx → Option Bytes → (siglen : ℕ) → Option (Bytes × MdCtx) → Ctx × Run (Unit {0})
  verify_digest ctx sig siglen none = (ctx, err silent)
  verify_digest ctx sig siglen (some (digest, c)) = (
    record ctx { mdctx = some c; flag_allow_md = true },
    verify evp oqs ctx.sig sig siglen (some digest) (length digest),
  )

  verify_final_with : Ctx → Option MdCtx → Option Bytes → (siglen : ℕ) → Ctx × Run (Unit {0})
  unfolding verify_digest
  verify_final_with ctx (some c) sig siglen = verify_digest ctx sig siglen (md.digest_final c)
  verify_final_with ctx none sig siglen =
      (ctx, verify evp oqs ctx.sig sig siglen ctx.mddata ctx.mdsize)

  -- oqs_sig_digest_verify_final: without a digest, `flag_allow_md` is not set.
  unfoldable pub digest_verify_final : Ctx → Option Bytes → (siglen : ℕ) → Ctx × Run (Unit {0})
  unfolding verify_final_with
  digest_verify_final ctx sig siglen = verify_final_with ctx ctx.mdctx sig siglen

  -- A property string that is absent leaves the buffer empty, not null.
  set_md : Ctx → Option String → Option (Option String) → Run (Ctx × Bool)
  set_md ctx none properties = ok (ctx, false)
  set_md ctx (some mdname) none = setup_md ctx (some mdname) (some "")
  set_md ctx (some mdname) (some none) = ok (ctx, false)
  set_md ctx (some mdname) (some (some mdprops)) = setup_md ctx (some mdname) (some mdprops)

  set_digest : Ctx → Option (Option String) → Option (Option String) → Run (Ctx × Bool)
  unfolding set_md
  set_digest ctx none properties = ok (ctx, true)
  set_digest ctx (some p) properties =
      if not ctx.flag_allow_md then ok (ctx, false) else set_md ctx p properties

  -- oqs_sig_set_ctx_params, `none` for no parameter list.
  unfoldable pub set_ctx_params : Ctx → Option MdParams → Run (Ctx × Bool)
  unfolding set_digest
  set_ctx_params ctx none = ok (ctx, false)
  set_ctx_params ctx (some params) = set_digest ctx params.digest params.properties

  fill_aid : Ctx → Option Bytes → Run Ctx
  fill_aid ctx (some aid) = ok ctx
  fill_aid ctx none = do key ← deref ctx.sig; ok (record ctx { aid = md.algorithm_id key.tls_name })

  -- oqs_sig_get_ctx_params up to the copies: the algorithm identifier and the digest's name.
  unfoldable pub get_ctx_params : Ctx → Run (Ctx × (Option Bytes × String))
  unfolding fill_aid
  get_ctx_params ctx = do ctx' ← fill_aid ctx ctx.aid; ok (ctx', (ctx'.aid, ctx'.mdname))
