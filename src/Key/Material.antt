-- ===== src/Key/Material.antt =====
-- A hybrid key with all its material: what generation makes and the encodings carry.
use oqs_provider.Base.{◌-◌, ◌+◌, some, ◌++◌, [], ◌∷◌, length}
use oqs_provider.Memory.{Bytes, size_of_uint32, at_offset}
use oqs_provider.Key.{EvpInfo, OqsxKey}
use oqs_provider.Key.Layout.{zeros, framed}

abbrev pub material :
    {Pkey : Type 0} → OqsxKey Pkey → EvpInfo → Pkey → (cpub cpriv opub opriv : Bytes) → OqsxKey Pkey
material key i p cpub cpriv opub opriv = record key {
  classical_pkey = some p;
  pubkey = some (framed cpub (opub ++ zeros (i.length_public_key - length cpub)));
  privkey = some (framed cpriv (opriv ++ zeros (i.length_private_key - length cpriv)));
  comp_pubkey = at_offset size_of_uint32 ∷ at_offset (length cpub + size_of_uint32) ∷ [];
  comp_privkey = at_offset size_of_uint32 ∷ at_offset (length cpriv + size_of_uint32) ∷ [];
}

-- The same of a key of liboqs alone.
abbrev pub plain_material : {Pkey : Type 0} → OqsxKey Pkey → (opub opriv : Bytes) → OqsxKey Pkey
plain_material key opub opriv = record key {
  pubkey = some opub;
  privkey = some opriv;
  comp_pubkey = at_offset 0 ∷ [];
  comp_privkey = at_offset 0 ∷ [];
}
