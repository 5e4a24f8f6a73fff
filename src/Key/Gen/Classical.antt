-- ===== src/Key/Gen/Classical.antt =====
-- The classical half of a key pair, as oqsx_key_gen_evp_key leaves it in fresh buffers.
use oqs_provider.Base.{ℕ, ◌+◌, ◌≤◌, ◌≡◌, true, false, some, arith, length, ◌==◌, ◌++◌, ltb}
use oqs_provider.Run.{ok}
use oqs_provider.Memory.{Bytes, size_of_uint32}
use oqs_provider.Extern.{Evp}
use oqs_provider.Key.{EvpInfo}
use oqs_provider.Key.Layout.{zeros, framed, write_classical, write_header}
use oqs_provider.Key.Gen.{
  EvpKeys, gen_evp_key, gen_raw, gen_der, gen_raw_private, gen_der_private, store_lengths,
}

module _ (evp : Evp) where
  open evp use {Pkey}

  -- OpenSSL makes the key `p`, whose encodings have the lengths that the row `i` tells of: exactly
  -- for raw keys, at most for DER, which reads back.
  pub data ClassicalPair (i : EvpInfo) (seed : ℕ) (p : Pkey) (cpub cpriv : Bytes) : Type 0 where
    raw_pair :
        evp.keygen i.keytype i.nid seed ≡ some p
        → i.raw_key_support ≡ true
        → evp.get1_encoded_public_key p ≡ some cpub
        → evp.get_raw_private_key p ≡ some cpriv
        → length cpub ≡ i.length_public_key
        → length cpriv ≡ i.length_private_key
        → ClassicalPair i seed p cpub cpriv
    der_pair :
        {q : Pkey}
        → evp.keygen i.keytype i.nid seed ≡ some p
        → i.raw_key_support ≡ false
        → evp.i2d_public_key p ≡ some cpub
        → evp.i2d_private_key p ≡ some cpriv
        → evp.d2i_private_key i.keytype cpriv ≡ some q
        → length cpub ≤ i.length_public_key
        → length cpriv ≤ i.length_private_key
        → ClassicalPair i seed p cpub cpriv

==_self : (a b : ℕ) → a ≡ b → (a == b) ≡ true
==_self a b h = ground arith

not_longer : (a b : ℕ) → a ≤ b → ltb b a ≡ false
not_longer a b h = ground arith

le_of : {a b : ℕ} → a ≡ b → a ≤ b
le_of h = omega arith

module _ (evp : Evp) where
  open evp use {Pkey}

  module _ (i : EvpInfo) (p : Pkey) (cpub cpriv : Bytes) (m n : ℕ) where
    abbrev left : EvpKeys Pkey
    left = record {
      pkey = some p;
      pubkey = framed cpub (zeros m);
      privkey = framed cpriv (zeros n);
    }

    store_lengths-framed :
        store_lengths evp p
          (length cpub)
          (length cpriv)
          (zeros size_of_uint32 ++ (cpub ++ zeros m))
          (zeros size_of_uint32 ++ (cpriv ++ zeros n))
        ≡ ok left
    unfolding store_lengths
    store_lengths-framed = rw (write_header cpub (zeros m), write_header cpriv (zeros n))

    module _ (pubsize privsize : ℕ) (hp : pubsize ≡ size_of_uint32 + (length cpub + m))
        (hq : privsize ≡ size_of_uint32 + (length cpriv + n)) where
      -- Both keys stand behind headers with their lengths, and the rest is zero.
      pub gen_evp_key-framed :
          (seed : ℕ)
          → ClassicalPair evp i seed p cpub cpriv
          → gen_evp_key evp seed i (zeros pubsize) (zeros privsize) ≡ ok left
      unfolding gen_evp_key gen_raw gen_raw_private gen_der gen_der_private
      gen_evp_key-framed seed (raw_pair made raw e1 e2 l1 l2) =
          rw (made, gen_evp_key)
            (rw (raw, e1, gen_raw)
              (rw (==_self _ _ l1, write_classical cpub pubsize m hp, e2, gen_raw_private)
                (rw (not_longer _ _ (le_of l2), write_classical cpriv privsize n hq, ==_self _ _ l2)
                  store_lengths-framed)))
      gen_evp_key-framed seed (der_pair made raw e1 e2 back l1 l2) =
          rw (made, gen_evp_key)
            (rw (raw, e1, gen_der)
              (rw (write_classical cpub pubsize m hp, not_longer _ _ l1, e2, gen_der_private)
                (rw (write_classical cpriv privsize n hq, not_longer _ _ l2, back, gen_der_private)
                  store_lengths-framed)))
