-- ===== src/Examples/Keys.antt =====
-- Key generation and the encodings of keys.
use oqs_provider.Base.{◌<◌, ◌^◌, ◌≡◌, refl, some, [], ◌∷◌, length, false, arith}
use oqs_provider.Run.{ok, ub, ◌>>=◌}
use oqs_provider.Memory.{Bytes}
use oqs_provider.Key.{OqsxKey}
use oqs_provider.Key.Layout.{zeros}
use oqs_provider.Key.Material.{material}
use oqs_provider.Key.Gen.{key_gen}
use oqs_provider.Key.Gen.Classical.{der_pair}
use oqs_provider.Key.Gen.Pair.{key_gen-hybrid, key_gen-no_classical}
use oqs_provider.Key.Decode.{fill_key, op_private}
use oqs_provider.Key.Decode.Rebuild.{der_key}
use oqs_provider.Key.Decode.Unchecked.{fill_key-short}
use oqs_provider.Encoder.Blob.{pki_priv_to_der}
use oqs_provider.Encoder.RoundTrip.{fill_key-pki_priv_to_der}
use oqs_provider.Examples.Toy.{
  toy_evp, failing_evp, toy_oqs, always, der_info, sig_key, sig_key-IsHybrid, sig_key-IsNew,
  plain_key, plain_key-IsPlain, plain_key-IsNew,
}
use oqs_provider.Key.Material.{plain_material}
use oqs_provider.Encoder.Plain.{fill_key-pki_priv_to_der_plain}

abbrev cpub : Bytes
cpub = 8 ∷ 1 ∷ []

abbrev opub : Bytes
opub = 8 ∷ 5 ∷ 6 ∷ []

abbrev opriv : Bytes
opriv = 8 ∷ 9 ∷ []

-- The classical private key is two bytes short.
abbrev full_key : OqsxKey Bytes
full_key = material sig_key der_info cpub cpub cpub opub opriv

small : length cpub < 2 ^ 31
small = omega arith

key_gen-hybrid_example : key_gen toy_evp toy_oqs always 8 sig_key ≡ ok (full_key, false)
key_gen-hybrid_example =
    key_gen-hybrid toy_evp toy_oqs 8 sig_key der_info sig_key-IsHybrid cpub cpub cpub opub opriv
      (der_pair {q = cpub} refl refl refl refl refl (omega arith) (omega arith)) (refl, refl, refl)
      small small (omega arith) (omega arith) always sig_key-IsNew refl refl

key_gen-no_classical_example :
    key_gen failing_evp toy_oqs always 8 sig_key
    ≡ ok (record sig_key { pubkey = some (zeros 9); privkey = some (zeros 10) }, false)
key_gen-no_classical_example =
    key_gen-no_classical failing_evp toy_oqs always 8 sig_key der_info sig_key-IsHybrid
      sig_key-IsNew refl refl refl

fill_key-pki_priv_to_der_example :
    (pki_priv_to_der (some full_key) >>= λ bytes. fill_key toy_evp always sig_key bytes op_private)
    ≡ ok full_key
fill_key-pki_priv_to_der_example =
    fill_key-pki_priv_to_der toy_evp sig_key sig_key der_info sig_key-IsHybrid sig_key-IsHybrid
      sig_key-IsNew refl cpub cpub cpub cpub opub opriv small small refl refl (omega arith)
      (omega arith) (der_key refl refl refl refl) always refl refl

fill_key-short_example : fill_key toy_evp always sig_key (0 ∷ 0 ∷ []) op_private ≡ ub
fill_key-short_example =
    fill_key-short toy_evp sig_key der_info always (0 ∷ 0 ∷ []) sig_key-IsHybrid (omega arith)

fill_key-pki_priv_to_der_plain_example :
    (pki_priv_to_der (some (plain_material plain_key opub opriv)) >>= λ bytes.
    fill_key toy_evp always plain_key bytes op_private)
    ≡ ok (plain_material plain_key opub opriv)
fill_key-pki_priv_to_der_plain_example =
    fill_key-pki_priv_to_der_plain toy_evp plain_key plain_key plain_key-IsPlain plain_key-IsPlain
      plain_key-IsNew refl opub opriv refl refl always refl refl
