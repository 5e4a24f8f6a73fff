-- ===== src/Key/New/Examples.antt =====
-- A new key of a hybrid signature.
use oqs_provider.Base.{◌≡◌, refl, some, none, [], false}
use oqs_provider.Base.{◌∷◌}
use oqs_provider.Run.{ok}
use oqs_provider.Memory.{Bytes, unset}
use oqs_provider.Extern.{evp_ec, prime256v1, dilithium_2}
use oqs_provider.Key.{OqsxKey, hyb_sig}
use oqs_provider.Key.Shape.{IsShaped, IsNew}
use oqs_provider.Key.New.{
  key_new, by_primitive, with_propq, plain_key, hybrid_key, hybsig_init, security_index, choose_row,
}
use oqs_provider.Key.New.Shaped.{key_new-IsShaped}
use oqs_provider.Examples.Toy.{toy_evp, toy_oqs, always, sig_key}

abbrev pub new_key : OqsxKey Bytes
new_key = record sig_key {
  evp_info = some (record {
    keytype = evp_ec;
    nid = prime256v1;
    raw_key_support = false;
    length_public_key = 65;
    length_private_key = 121;
    kex_length_secret = 32;
    length_signature = 72;
  });
  privkeylen = 127;
  pubkeylen = 72;
  comp_privkey = unset ∷ unset ∷ [];
  comp_pubkey = unset ∷ unset ∷ [];
}

pub made :
    key_new toy_evp toy_oqs always (some dilithium_2) (some "p256_dilithium2") hyb_sig none 128
    ≡ ok new_key
unfolding key_new by_primitive with_propq plain_key hybrid_key hybsig_init security_index choose_row
made = refl

key_new-IsShaped_example : IsShaped new_key × IsNew new_key × (new_key.keytype ≡ hyb_sig)
key_new-IsShaped_example =
    key_new-IsShaped toy_evp toy_oqs always (some dilithium_2) (some "p256_dilithium2") hyb_sig none
      128 new_key made
