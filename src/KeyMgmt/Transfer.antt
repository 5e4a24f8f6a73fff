-- ===== src/KeyMgmt/Transfer.antt =====
-- Export of a hybrid key and import into a new one.
use oqs_provider.Base.{
  equal, ℕ, ◌-◌, ◌≤◌, ◌<◌, ◌^◌, ◌≡◌, refl, ap, Bool, true, false, ◌||◌, none, some, arith, length,
  ◌==◌, ◌++◌, [], length-replicate, length-append,
}
use oqs_provider.Run.{ok, ◌>>=◌}
use oqs_provider.Memory.{Bytes}
use oqs_provider.Memory.Laws.{read_rest}
use oqs_provider.Extern.{Evp, Alloc, pubkey_site, privkey_site}
use oqs_provider.Key.{EvpInfo, OqsxKey}
use oqs_provider.Key.Shape.{IsHybrid, IsNew, qs_publen, qs_privlen}
use oqs_provider.Key.Layout.{zeros, framed, length-framed}
use oqs_provider.Key.Material.{material}
use oqs_provider.Key.Decode.Rebuild.{
  FromPrivate, FromPublic, public_half, rebuild-private, rebuild-public,
}
use oqs_provider.KeyMgmt.{
  octet_string, key_to_params, param_of, take_param, export, import, fromdata,
}

param_of-all :
    (buf : Bytes) (n : ℕ)
    → n ≡ length buf
    → (n == 0) ≡ false
    → param_of (some buf) n ≡ ok (some (octet_string buf))
unfolding param_of
param_of-all buf n e some_data = rw (some_data, read_rest [] buf 0 n refl e)

nonzero : (a : ℕ) → 0 < a → (a == 0) ≡ false
nonzero a h = ground arith

module _ (evp : Evp) (key new : OqsxKey evp.Pkey) (i : EvpInfo) (h : IsHybrid key i)
    (h' : IsHybrid new i) (is_new : IsNew new) (same : new.qs_ctx ≡ key.qs_ctx) (p q : evp.Pkey)
    (cpub cpriv opub opriv : Bytes) (small_pub : length cpub < 2 ^ 31)
    (small_priv : length cpriv < 2 ^ 31) (opub_len : length opub ≡ qs_publen key.qs_ctx)
    (opriv_len : length opriv ≡ qs_privlen key.qs_ctx)
    (fits_pub : length cpub ≤ i.length_public_key)
    (fits_priv : length cpriv ≤ i.length_private_key) where
  abbrev public_bytes : Bytes
  public_bytes = framed cpub (opub ++ zeros (i.length_public_key - length cpub))

  abbrev private_bytes : Bytes
  private_bytes = framed cpriv (opriv ++ zeros (i.length_private_key - length cpriv))

  public_length : key.pubkeylen ≡ length public_bytes
  public_length = omega (
    arith,
    h.publen,
    opub_len,
    fits_pub,
    length-framed cpub (opub ++ zeros (i.length_public_key - length cpub)),
    length-append opub (zeros (i.length_public_key - length cpub)),
    length-replicate {A = ℕ} (i.length_public_key - length cpub) 0,
  )

  private_length : key.privkeylen ≡ length private_bytes
  private_length = omega (
    arith,
    h.privlen,
    opriv_len,
    fits_priv,
    length-framed cpriv (opriv ++ zeros (i.length_private_key - length cpriv)),
    length-append opriv (zeros (i.length_private_key - length cpriv)),
    length-replicate {A = ℕ} (i.length_private_key - length cpriv) 0,
  )

  public_some : (key.pubkeylen == 0) ≡ false
  public_some = nonzero _ (omega (arith, h.publen))

  private_some : (key.privkeylen == 0) ≡ false
  private_some = nonzero _ (omega (arith, h.privlen))

  export-pair :
      (o d : Bool)
      → export (material key i p cpub cpriv opub opriv) (record {
        private_key = true;
        public_key = true;
        domain_parameters = d;
        other_parameters = o;
      })
        ≡ ok (some (octet_string public_bytes), some (octet_string private_bytes))
  unfolding export key_to_params
  export-pair o d =
      rw (param_of-all public_bytes key.pubkeylen public_length public_some)
        (rw (param_of-all private_bytes key.privkeylen private_length private_some))

  export-public :
      (o d : Bool)
      → export (material key i p cpub cpriv opub opriv) (record {
        private_key = false;
        public_key = true;
        domain_parameters = d;
        other_parameters = o;
      })
        ≡ ok (some (octet_string public_bytes), none)
  unfolding export key_to_params
  export-public o d = rw (param_of-all public_bytes key.pubkeylen public_length public_some)

  new_public_length : (new.pubkeylen == length public_bytes) ≡ true
  new_public_length =
      equal _ _ (omega (arith, h.publen, h'.publen, ap qs_publen same, public_length))

  new_private_length : (new.privkeylen == length private_bytes) ≡ true
  new_private_length =
      equal _ _ (omega (arith, h.privlen, h'.privlen, ap qs_privlen same, private_length))

  fromdata-pair :
      (alloc : Alloc)
      → alloc privkey_site ≡ true
      → alloc pubkey_site ≡ true
      → FromPrivate evp i q cpub cpriv
      → fromdata evp alloc new
          (some (octet_string public_bytes))
          (some (octet_string private_bytes))
        ≡ ok (material new i q cpub cpriv opub opriv)
  unfolding fromdata take_param
  fromdata-pair alloc a b made =
      rw (new_private_length, a)
        (rw (new_public_length, b)
          (rebuild-private evp new i h' q cpub cpub cpriv opub opriv refl small_pub small_priv
            made))

  fromdata-public :
      (alloc : Alloc)
      → alloc pubkey_site ≡ true
      → FromPublic evp i q cpub
      → fromdata evp alloc new (some (octet_string public_bytes)) none
        ≡ ok (public_half evp new i h' q cpub opub small_pub)
  unfolding fromdata take_param
  fromdata-public alloc b made =
      simp (new_public_length, b, is_new.no_privkey)
        (rebuild-public evp new i h' q cpub opub small_pub made)

  -- Exporting the pair of a hybrid key with all its material and importing it into a new key of the same
  -- algorithm, with parameters selected as well, when the allocations succeed and OpenSSL reads the
  -- classical key and encodes its public half in the full length, succeeds and gives all the material back.
  pub import-export :
      (alloc : Alloc) (d o : Bool)
      → (d || o) ≡ true
      → alloc privkey_site ≡ true
      → alloc pubkey_site ≡ true
      → FromPrivate evp i q cpub cpriv
      → (export (material key i p cpub cpriv opub opriv) (record {
        private_key = true;
        public_key = true;
        domain_parameters = d;
        other_parameters = o;
      })
          >>= λ ps.
              import evp alloc
                (some new)
                (record {
                  private_key = true;
                  public_key = true;
                  domain_parameters = d;
                  other_parameters = o;
                })
                ps.0
                ps.1)
        ≡ ok (material new i q cpub cpriv opub opriv)
  unfolding import
  import-export alloc d o selected a b made =
      rw (export-pair o d) (rw (selected) (fromdata-pair alloc a b made))

  -- Exporting the public half of a hybrid key with all its material and importing it into a new key of the
  -- same algorithm, with parameters selected as well, when the allocation succeeds and OpenSSL reads the
  -- classical public key, succeeds: the new key has the public material and no private one.
  pub import-export_public :
      (alloc : Alloc) (d o : Bool)
      → (d || o) ≡ true
      → alloc pubkey_site ≡ true
      → FromPublic evp i q cpub
      → (export (material key i p cpub cpriv opub opriv) (record {
        private_key = false;
        public_key = true;
        domain_parameters = d;
        other_parameters = o;
      })
          >>= λ ps.
              import evp alloc
                (some new)
                (record {
                  private_key = false;
                  public_key = true;
                  domain_parameters = d;
                  other_parameters = o;
                })
                ps.0
                ps.1)
        ≡ ok (public_half evp new i h' q cpub opub small_pub)
  unfolding import
  import-export_public alloc d o selected b made =
      rw (export-public o d) (rw (selected) (fromdata-public alloc b made))
