-- ===== src/Key/Decode/Unchecked.antt =====
-- What oqsx_key_op of oqsprov/oqsprov_keys.c does not check before it reads: the size of a private input.
use oqs_provider.Base.{◌<◌, ◌≡◌, refl, true, arith, length, ◌==◌, [], ◌∷◌}
use oqs_provider.Run.{ub}
use oqs_provider.Memory.{Bytes, size_of_uint32, decode_uint32}
use oqs_provider.Extern.{Evp, Alloc}
use oqs_provider.Key.{EvpInfo, OqsxKey}
use oqs_provider.Key.Shape.{IsHybrid}
use oqs_provider.Key.Decode.{op_private, fill_key, load_by_op, load_private, actual_privkeylen}

decode_short : (p : Bytes) → length p < size_of_uint32 → decode_uint32 p ≡ ub
unfolding decode_uint32
decode_short [] h = refl
decode_short (a ∷ []) h = refl
decode_short (a ∷ b ∷ []) h = refl
decode_short (a ∷ b ∷ c ∷ []) h = refl
decode_short (a ∷ b ∷ c ∷ d ∷ rest) h = absurd (omega arith)

module _ (evp : Evp) where
  open evp use {Pkey}

  -- A private key of fewer than four bytes is read beyond its end, for a hybrid key: the header is read before
  -- any size is compared.
  pub fill_key-short :
      (key : OqsxKey Pkey) (i : EvpInfo) (alloc : Alloc) (p : Bytes)
      → IsHybrid key i
      → length p < size_of_uint32
      → fill_key evp alloc key p op_private ≡ ub
  unfolding fill_key load_by_op load_private actual_privkeylen
  fill_key-short key i alloc p h short = rw (is_two, decode_short p short)
    where
      is_two : (key.numkeys == 2) ≡ true
      is_two = ground (arith, h.two)
