-- ===== src/Key/Decode/Public.antt =====
-- The bytes of the public half of a hybrid key, read into a new key.
use oqs_provider.Base.{
  ℕ, ◌-◌, ◌≤◌, ◌<◌, ◌^◌, ◌≡◌, refl, true, arith, length, ◌++◌, equal, length-append,
  length-replicate,
}
use oqs_provider.Run.{ok}
use oqs_provider.Memory.{Bytes}
use oqs_provider.Extern.{Evp, Alloc, pubkey_site}
use oqs_provider.Key.{OqsxKey, EvpInfo, allocate_keymaterial}
use oqs_provider.Key.Shape.{IsHybrid, IsNew, qs_publen}
use oqs_provider.Key.Layout.{zeros, framed, length-framed, write_all}
use oqs_provider.Key.Decode.{op_public, fill_key, load_by_op, load_public}
use oqs_provider.Key.Decode.Rebuild.{FromPublic, public_half, public_loaded, rebuild-public}

-- The buffer of a public key: behind a short classical key it ends in zeros.
abbrev pub public_buffer : EvpInfo → (cpub opub : Bytes) → Bytes
public_buffer i cpub opub = framed cpub (opub ++ zeros (i.length_public_key - length cpub))

module _ (evp : Evp) where
  open evp use {Pkey}

  pub length-public_buffer :
      (key : OqsxKey Pkey) (i : EvpInfo)
      → IsHybrid key i
      → (cpub opub : Bytes) → length opub ≡ qs_publen key.qs_ctx
      → length cpub ≤ i.length_public_key
      → key.pubkeylen ≡ length (public_buffer i cpub opub)
  length-public_buffer key i h cpub opub opub_len fits = omega (
    arith,
    h.publen,
    opub_len,
    fits,
    length-framed cpub (opub ++ zeros (i.length_public_key - length cpub)),
    length-append opub (zeros (i.length_public_key - length cpub)),
    length-replicate {A = ℕ} (i.length_public_key - length cpub) 0,
  )

  -- oqsx_key_op reads the buffer of a public hybrid key into a new key of the same kind: the key holds the
  -- public half, and no private one.
  pub fill_key-public :
      (new : OqsxKey Pkey) (i : EvpInfo) (h : IsHybrid new i)
      → IsNew new
      → (q : Pkey) (cpub opub : Bytes) (small : length cpub < 2 ^ 31)
      → length opub ≡ qs_publen new.qs_ctx
      → length cpub ≤ i.length_public_key
      → FromPublic evp i q cpub
      → (alloc : Alloc) → alloc pubkey_site ≡ true
      → fill_key evp alloc new (public_buffer i cpub opub) op_public
        ≡ ok (public_half evp new i h q cpub opub small)
  unfolding fill_key load_by_op load_public allocate_keymaterial
  fill_key-public new i h is_new q cpub opub small opub_len fits made alloc b =
      rw (loaded) (rebuild-public evp new i h q cpub opub small made)
    where
      long : new.pubkeylen ≡ length (public_buffer i cpub opub)
      long = length-public_buffer new i h cpub opub opub_len fits

      loaded :
          load_public evp alloc new (public_buffer i cpub opub)
          ≡ ok (public_loaded evp new i h q cpub opub small)
      loaded = rw (equal _ _ long) (
          simp (is_new.no_pubkey, allocate_keymaterial, b)
            (rw (write_all (public_buffer i cpub opub) new.pubkeylen long)
              (rw (is_new.no_privkey) refl)))
