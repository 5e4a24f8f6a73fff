-- ===== src/Decoder/Read.antt =====
-- oqsprov/oqs_decode_der2key.c: what a decoder reads from a BIO of the core.
use oqs_provider.Base.{◌≡◌, Bool, ◌∙◌, ap, Option}
use oqs_provider.Memory.{Bytes}
use oqs_provider.Bio.{Upcalls, OutBio, bio_new_from_core_bio, bio_free_out}
use oqs_provider.Bio.Balance.{CountsReferences, bio_free-bio_new}

module _ {W H : Type 0} (u : Upcalls W H) (read : Option (OutBio H) → W → Option Bytes × W) where
  -- oqs_read_der, with OpenSSL's reader of one DER value, which is called without a BIO too.
  unfoldable pub read_der : (bio_method bio_made : Bool) → H → W → Option Bytes × W
  unfolding bio_new_from_core_bio bio_free_out
  read_der bio_method bio_made cin w =
      let in_ = bio_new_from_core_bio u bio_method bio_made cin w in
      let r = read in_.0 in_.1 in (r.0, bio_free_out u in_.0 r.1)

  -- Reading leaves the references of the core as they were, where the core counts them and a read does not
  -- change them, whether there was something to read or not.
  pub read_der-core :
      CountsReferences u
      → ((bio : Option (OutBio H)) (w : W) → (read bio w).1 ≡ w)
      → (bio_method bio_made : Bool) (cin : H) (w : W) → (read_der bio_method bio_made cin w).1 ≡ w
  unfolding read_der
  read_der-core counts reads bio_method bio_made cin w =
      ap (bio_free_out u (bio_new_from_core_bio u bio_method bio_made cin w).0) (
        reads (bio_new_from_core_bio u bio_method bio_made cin w).0
          (bio_new_from_core_bio u bio_method bio_made cin w).1)
      ∙ bio_free-bio_new u counts bio_method bio_made cin w
