-- ===== src/Examples/Signatures.antt =====
-- Signing, verifying, and the signature context.
use oqs_provider.Base.{
  false, ℕ, ◌==◌, not, ◌≤◌, ◌≡◌, refl, Bool, none, some, [], ◌∷◌, length, arith,
}
use oqs_provider.Run.{ok, Post, ◌>>=◌}
use oqs_provider.Memory.{Bytes, read, decode_uint32, encode_uint32}
use oqs_provider.Key.{OqsxKey}
use oqs_provider.Key.Material.{material}
use oqs_provider.Sig.{sign, verify, message, size_sub}
use oqs_provider.Sig.Bounds.{IsBounded, HasLength, sign-bounded}
use oqs_provider.Sig.RoundTrip.{ClassicalSigns, OqsSigns, verify-sign}
use oqs_provider.Sig.Context.{
  Ctx, newctx, op_sign, digest_signverify_init, digest_update, digest_sign_final, set_ctx_params,
}
use oqs_provider.Sig.Context.Streaming.{
  Collected, IsAble, update_all, sign_final-update_all, set_ctx_params-update,
}
use oqs_provider.Sig.Context.Reuse.{sign_final-again}
use oqs_provider.Examples.Toy.{
  toy_evp, toy_oqs, toy_md, toy_sig, der_info, sig_key, sig_key-IsHybrid, plain_key,
  plain_key-IsPlain,
}
use oqs_provider.Key.Material.{plain_material}
use oqs_provider.Sig.Plain.{verify-sign_plain}
use oqs_provider.Sig.Sound.{Accepted, verify-both}

abbrev cpub : Bytes
cpub = 8 ∷ 1 ∷ []

abbrev opub : Bytes
opub = 8 ∷ 5 ∷ 6 ∷ []

abbrev opriv : Bytes
opriv = 8 ∷ 9 ∷ []

abbrev full_key : OqsxKey Bytes
full_key = material sig_key der_info cpub cpub cpub opub opriv

abbrev msg : Bytes
msg = 5 ∷ 5 ∷ 5 ∷ []

-- The two signatures with the seed 4, and a buffer of one byte more than the longest signature.
abbrev classical : Bytes
classical = 77 ∷ 3 ∷ []

abbrev quantum : Bytes
quantum = 3 ∷ 4 ∷ []

abbrev buffer : Bytes
buffer = 0 ∷ 0 ∷ 0 ∷ 0 ∷ 0 ∷ 0 ∷ 0 ∷ 0 ∷ 0 ∷ 99 ∷ []

classical_signs : ClassicalSigns toy_evp toy_oqs der_info toy_sig cpub msg 4 classical
classical_signs = record {
  can_sign = refl;
  can_verify = refl;
  can_pad = refl;
  signed = refl;
  verifies = refl;
  fits = omega arith;
}

oqs_signs : OqsSigns toy_evp toy_oqs toy_sig opub opriv msg 4 quantum
oqs_signs = record { signed = refl; verifies = refl; fits = omega arith }

verify-sign_example :
    (sign toy_evp toy_oqs (some full_key) (some buffer) 10 10 (some msg) (length msg) 4 >>= λ r.
    verify toy_evp toy_oqs (some full_key) r.0 r.1 (some msg) (length msg))
    ≡ ok tt
verify-sign_example =
    verify-sign toy_evp toy_oqs sig_key der_info toy_sig sig_key-IsHybrid refl cpub cpub cpub opub
      opriv refl refl msg 4 classical quantum classical_signs oqs_signs buffer (omega arith) 10 10
      (omega arith) (omega arith)

toy_sig-IsBounded : IsBounded toy_evp toy_oqs toy_sig
toy_sig-IsBounded m priv sig seed e = omega (arith, two m sig seed e)
  where
    two : (m sig : Bytes) (seed : ℕ) → some (length m ∷ seed ∷ []) ≡ some sig → length sig ≡ 2
    two m (a ∷ b ∷ []) seed e = refl
    two m [] seed e = absurd cc
    two m (a ∷ []) seed e = absurd cc
    two m (a ∷ b ∷ c ∷ rest) seed e = absurd cc

sign-bounded_example :
    Post
      (λ r. (r.1 ≤ 10) × HasLength 10 r.0)
      (sign toy_evp toy_oqs (some full_key) (some buffer) 10 10 (some msg) 3 4)
sign-bounded_example =
    sign-bounded toy_evp toy_oqs full_key toy_sig toy_sig-IsBounded buffer 10 10 (some msg) 3 4 refl

-- An allocation succeeds unless its size is 0.
abbrev able : ℕ → Bool
able n = not (n == 0)

able-IsAble : IsAble toy_evp toy_md toy_oqs able
able-IsAble n h = ground arith

abbrev ctx : Ctx toy_evp toy_md toy_oqs
ctx = record (newctx toy_evp toy_md toy_oqs none) { sig = some full_key; operation = op_sign }

no_md : ctx.mdctx ≡ none
unfolding newctx
no_md = refl

no_data : ctx.mddata ≡ none
unfolding newctx
no_data = refl

sign_final-update_all_example :
    (digest_sign_final toy_evp toy_md toy_oqs
      (update_all toy_evp toy_md toy_oqs able ctx ((5 ∷ []) ∷ [] ∷ (5 ∷ 5 ∷ []) ∷ []))
      (some buffer)
      10
      10
      4).1
    ≡ sign toy_evp toy_oqs ctx.sig (some buffer) 10 10 (some msg) 3 4
sign_final-update_all_example =
    sign_final-update_all toy_evp toy_md toy_oqs able able-IsAble ctx (5 ∷ [])
      ([] ∷ (5 ∷ 5 ∷ []) ∷ []) (some buffer) 10 10 4 no_md no_data (omega arith)

set_ctx_params-update_example :
    set_ctx_params toy_evp toy_md toy_oqs
      (digest_update toy_evp toy_md toy_oqs able ctx msg).0
      (some (record { digest = some (some "SHA256"); properties = none }))
    ≡ ok ((digest_update toy_evp toy_md toy_oqs able ctx msg).0, false)
set_ctx_params-update_example =
    set_ctx_params-update toy_evp toy_md toy_oqs able ctx msg (some "SHA256") none

abbrev used : Ctx toy_evp toy_md toy_oqs
used = record (newctx toy_evp toy_md toy_oqs none) {
  sig = some full_key;
  mdsize = 3;
  mddata = some msg;
}

used-Collected : Collected toy_evp toy_md toy_oqs used msg
unfolding newctx
used-Collected = record { no_md = refl; stored = refl; sized = refl }

sign_final-again_example :
    (digest_signverify_init toy_evp toy_md toy_oqs
        (digest_sign_final toy_evp toy_md toy_oqs used (some buffer) 10 10 4).0
        none
        (some full_key)
        op_sign
      >>= λ r.
          ok
            (digest_sign_final toy_evp toy_md toy_oqs
              (digest_update toy_evp toy_md toy_oqs able r.0 (6 ∷ [])).0
              (some buffer)
              10
              10
              4).1)
    ≡ ok (sign toy_evp toy_oqs (some full_key) (some buffer) 10 10 (some (5 ∷ 5 ∷ 5 ∷ 6 ∷ [])) 4 4)
sign_final-again_example =
    sign_final-again toy_evp toy_md toy_oqs able able-IsAble used msg (6 ∷ []) full_key
      (some buffer) 10 10 4 used-Collected (omega arith) refl

verify-sign_plain_example :
    (sign toy_evp toy_oqs
        (some (plain_material plain_key opub opriv))
        (some buffer)
        2
        10
        (some msg)
        3
        4
      >>= λ r.
          verify toy_evp toy_oqs (some (plain_material plain_key opub opriv)) r.0 r.1 (some msg) 3)
    ≡ ok tt
verify-sign_plain_example =
    verify-sign_plain toy_evp toy_oqs plain_key toy_sig plain_key-IsPlain refl refl opub opriv refl
      refl msg 4 quantum oqs_signs buffer (omega arith) 2 10 (omega arith)

-- Both parts behind their header.
abbrev hybrid : Bytes
hybrid = 0 ∷ 0 ∷ 0 ∷ 2 ∷ 77 ∷ 3 ∷ 3 ∷ 4 ∷ []

hybrid_accepted : verify toy_evp toy_oqs (some full_key) (some hybrid) 8 (some msg) 3 ≡ ok tt
unfolding verify message read decode_uint32 encode_uint32 size_sub
hybrid_accepted = refl

verify-both_example : Accepted toy_evp toy_oqs full_key toy_sig cpub hybrid 8 (some msg) 3
verify-both_example =
    verify-both toy_evp toy_oqs full_key toy_sig cpub hybrid 8 (some msg) 3 refl refl
      hybrid_accepted
