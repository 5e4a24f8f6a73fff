-- ===== src/Examples/Transfers.antt =====
-- Export and import, matching, and the table of names.
use oqs_provider.Base.{◌<◌, ◌^◌, ◌≡◌, ◌↔◌, refl, true, false, some, List, [], ◌∷◌, length, arith}
use oqs_provider.Run.{ok, ◌>>=◌}
use oqs_provider.Memory.{Bytes}
use oqs_provider.Extern.{dilithium_2}
use oqs_provider.Key.{OqsxKey, hyb_sig, sig}
use oqs_provider.Key.Material.{material}
use oqs_provider.Key.Decode.Rebuild.{der_key, public_half}
use oqs_provider.KeyMgmt.{Selection, export, import, key_match}
use oqs_provider.KeyMgmt.Match.{key_match_iff}
use oqs_provider.KeyMgmt.Transfer.{import-export, import-export_public}
use oqs_provider.NidTable.{NidName}
use oqs_provider.NidTable.Lookup.{find_name}
use oqs_provider.Examples.Toy.{toy_evp, always, der_info, sig_key, sig_key-IsHybrid, sig_key-IsNew}

abbrev cpub : Bytes
cpub = 8 ∷ 1 ∷ []

abbrev opub : Bytes
opub = 8 ∷ 5 ∷ 6 ∷ []

abbrev opriv : Bytes
opriv = 8 ∷ 9 ∷ []

abbrev full_key : OqsxKey Bytes
full_key = material sig_key der_info cpub cpub cpub opub opriv

small : length cpub < 2 ^ 31
small = omega arith

abbrev pair : Selection
pair = record {
  private_key = true;
  public_key = true;
  domain_parameters = true;
  other_parameters = false;
}

abbrev public : Selection
public = record pair { private_key = false }

import-export_example :
    (export full_key pair >>= λ ps. import toy_evp always (some sig_key) pair ps.0 ps.1)
    ≡ ok full_key
import-export_example =
    import-export toy_evp sig_key sig_key der_info sig_key-IsHybrid sig_key-IsHybrid sig_key-IsNew
      refl cpub cpub cpub cpub opub opriv small small refl refl (omega arith) (omega arith) always
      true false refl refl refl (der_key refl refl refl refl)

import-export_public_example :
    (export full_key public >>= λ ps. import toy_evp always (some sig_key) public ps.0 ps.1)
    ≡ ok (public_half toy_evp sig_key der_info sig_key-IsHybrid cpub cpub opub small)
import-export_public_example =
    import-export_public toy_evp sig_key sig_key der_info sig_key-IsHybrid sig_key-IsHybrid
      sig_key-IsNew refl cpub cpub cpub cpub opub opriv small small refl refl (omega arith)
      (omega arith) always true false refl refl refl

abbrev buffer : Bytes
buffer = 0 ∷ 0 ∷ 0 ∷ 2 ∷ 8 ∷ 1 ∷ 8 ∷ 5 ∷ 6 ∷ []

abbrev keyed : OqsxKey Bytes
keyed = record sig_key { pubkey = some buffer }

abbrev selected : Selection
selected = record pair { domain_parameters = false; private_key = false }

key_match_iff_example :
    (key_match keyed keyed selected ≡ ok true)
    ↔ ((keyed.tls_name ≡ keyed.tls_name) × (buffer ≡ buffer))
key_match_iff_example = key_match_iff keyed keyed buffer buffer refl refl refl refl false false

-- The first two rows of the table at load time.
abbrev first_row : NidName
first_row = record {
  nid = 0;
  tlsname = "dilithium2";
  oqsname = dilithium_2;
  keytype = sig;
  secbits = 128;
}

abbrev second_row : NidName
second_row = record first_row { tlsname = "p256_dilithium2"; keytype = hyb_sig }

abbrev rows : List NidName
rows = first_row ∷ second_row ∷ []

found : find_name rows "p256_dilithium2" ≡ some second_row
unfolding find_name
found = refl
