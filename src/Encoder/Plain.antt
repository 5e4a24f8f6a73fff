-- ===== src/Encoder/Plain.antt =====
-- Encoding a key of liboqs alone and decoding the bytes into a new key.
use oqs_provider.Base.{◌≡◌, refl, sym, ap, ◌∙◌, true, false, some, arith, length, ltb, ◌++◌, []}
use oqs_provider.Run.{ok, ◌>>=◌}
use oqs_provider.Memory.{Bytes}
use oqs_provider.Memory.Laws.{read_rest}
use oqs_provider.Extern.{Evp, Alloc, pubkey_site, privkey_site}
use oqs_provider.Key.{OqsxKey}
use oqs_provider.Key.Shape.{IsPlain, IsNew, qs_publen, qs_privlen}
use oqs_provider.Key.Lengths.{oqs_len-plain}
use oqs_provider.Key.Material.{plain_material}
use oqs_provider.Key.Decode.{fill_key, op_private}
use oqs_provider.Key.Decode.Plain.{fill_key-plain}
use oqs_provider.Encoder.Blob.{pki_priv_to_der, encoded_privkeylen}

module _ {Pkey : Type 0} (key : OqsxKey Pkey) (h : IsPlain key) (opub opriv : Bytes)
    (opub_len : length opub ≡ qs_publen key.qs_ctx)
    (opriv_len : length opriv ≡ qs_privlen key.qs_ctx) where
  pki_priv_to_der-plain :
      pki_priv_to_der (some (plain_material key opub opriv)) ≡ ok (opriv ++ opub)
  unfolding pki_priv_to_der encoded_privkeylen
  pki_priv_to_der-plain = rw (one_key) (
      rw (read_rest [] opriv 0 key.privkeylen refl (h.privlen ∙ sym opriv_len)) (
        rw (oqs_len-plain (plain_material key opub opriv) key.keytype h.type)
          (rw (h.one) (rw (read_rest [] opub 0 key.pubkeylen refl (h.publen ∙ sym opub_len))))))
    where
      one_key : ltb 1 key.numkeys ≡ false
      one_key = ground (arith, h.one)

-- Encoding the private key of a key of liboqs alone and reading the bytes into a new key of the same
-- algorithm, when the allocations succeed, succeeds and gives both keys back.
pub fill_key-pki_priv_to_der_plain :
    (evp : Evp) (key new : OqsxKey evp.Pkey)
    → IsPlain key
    → IsPlain new
    → IsNew new
    → new.qs_ctx ≡ key.qs_ctx
    → (opub opriv : Bytes) → length opub ≡ qs_publen key.qs_ctx
    → length opriv ≡ qs_privlen key.qs_ctx
    → (alloc : Alloc) → alloc privkey_site ≡ true
    → alloc pubkey_site ≡ true
    → (pki_priv_to_der (some (plain_material key opub opriv)) >>= λ bytes.
        fill_key evp alloc new bytes op_private)
      ≡ ok (plain_material new opub opriv)
fill_key-pki_priv_to_der_plain evp key new h h' is_new same opub opriv opub_len opriv_len alloc a
      b =
    rw (pki_priv_to_der-plain key h opub opriv opub_len opriv_len) (
      fill_key-plain evp new h' is_new opub opriv (opub_len ∙ ap qs_publen (sym same))
        (opriv_len ∙ ap qs_privlen (sym same)) alloc a b)
