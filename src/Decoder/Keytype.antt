-- ===== src/Decoder/Keytype.antt =====
-- oqsprov/oqs_decode_der2key.c: the decoders that MAKE_DECODER makes: what they are for, and their
-- functions for a PrivateKeyInfo and a SubjectPublicKeyInfo.
use Prim.Native.String.{String}
use oqs_provider.Base.{List, ℕ, ◌==◌, Bool, true, false, Option, none, some, if◌then◌else◌}
use oqs_provider.Run.{Run, ok, err, ub, ◌>>=◌}
use oqs_provider.Memory.{Bytes}
use oqs_provider.Extern.{Evp, Oqs, Alloc, Asn1, Envelope}
use oqs_provider.Key.{OqsxKey}
use oqs_provider.Key.Decode.{key_from_pkcs8, key_from_x509pubkey}
use oqs_provider.KeyMgmt.{Selection}
use oqs_provider.NidTable.{NidName}
use oqs_provider.Decoder.{KeytypeDesc}

-- der2key_newctx: the number of the algorithm is looked up when the first context is made.
unfoldable pub newctx_evp_type : Asn1 → (evp_type : ℕ) → (tls_name : String) → ℕ
newctx_evp_type asn evp_type tls_name = if evp_type == 0 then asn.sn2nid tls_name else evp_type

-- A null key for one that could not be made.
abbrev pub or_null : {Key : Type 0} → Run Key → Run (Option Key)
or_null (ok key) = ok (some key)
or_null (err e) = ok none
or_null ub = ub

abbrev pub private_mask : Selection
private_mask = record {
  private_key = true;
  public_key = false;
  domain_parameters = false;
  other_parameters = false;
}

abbrev pub public_mask : Selection
public_mask = record private_mask { private_key = false; public_key = true }

abbrev pub params_mask : Selection
params_mask = record private_mask {
  private_key = false;
  domain_parameters = true;
  other_parameters = true;
}

-- The masks of DO_type_specific_keypair, _pub, _priv, _params, _no_pub and DO_type_specific.
pub data Specific : Type 0 where
  keypair only_pub only_priv only_params everything no_pub : Specific

abbrev pub specific_mask : Specific → Selection
specific_mask keypair = record private_mask { public_key = true }
specific_mask only_pub = public_mask
specific_mask only_priv = private_mask
specific_mask only_params = params_mask
specific_mask everything = record params_mask { private_key = true; public_key = true }
specific_mask no_pub = record params_mask { private_key = true }

module _ (asn : Asn1) (evp : Evp) (oqs : Oqs) (alloc : Alloc) (rows : List NidName) where
  open asn use {nid2sn, d2i_p8info, d2i_octet_string, d2i_x509_pubkey}
  open evp use {Pkey}

  abbrev pub from_p8info : (evp_type : ℕ) → Option Envelope → Run (Option (OqsxKey Pkey))
  from_p8info evp_type none = ok none
  from_p8info evp_type (some p8) =
      if p8.nid == evp_type
      then or_null (
          key_from_pkcs8 evp oqs alloc rows nid2sn
            (some ((p8.params_absent, p8.nid), d2i_octet_string p8.bytes)) none)
      else ok none

  -- oqsx_d2i_PKCS8 with oqs_der2key_decode_p8: a PrivateKeyInfo of another algorithm is left alone. The
  -- flag of a fatal failure is never set.
  unfoldable pub d2i_pkcs8_key : (evp_type : ℕ) → Bytes → Run (Option (OqsxKey Pkey) × Bool)
  d2i_pkcs8_key evp_type der = do key ← from_p8info evp_type (d2i_p8info der); ok (key, false)

  abbrev pub from_pubkey : Option Envelope → Run (Option (OqsxKey Pkey))
  from_pubkey none = or_null (key_from_x509pubkey evp oqs alloc rows nid2sn none none)
  from_pubkey (some xpk) = or_null (
      key_from_x509pubkey evp oqs alloc rows nid2sn (some ((xpk.params_absent, xpk.nid), xpk.bytes))
        none)

  -- oqsx_d2i_PUBKEY, which takes a SubjectPublicKeyInfo of any algorithm of the provider.
  unfoldable pub d2i_pubkey_key : Bytes → Run (Option (OqsxKey Pkey))
  d2i_pubkey_key der = from_pubkey (d2i_x509_pubkey der)

  -- DO_type_specific...: no function is set.
  abbrev pub specific_desc : Specific → KeytypeDesc (OqsxKey Pkey)
  specific_desc kind = record {
    selection_mask = specific_mask kind;
    d2i_private_key = none;
    d2i_public_key = none;
    d2i_key_params = none;
    d2i_pkcs8 = none;
    d2i_pubkey = none;
    check_key = none;
    adjust_key = some (λ key. key);
  }

  -- DO_PrivateKeyInfo and DO_SubjectPublicKeyInfo. oqsx_key_adjust sets the library context of the key.
  abbrev pub private_key_info_desc : (evp_type : ℕ) → KeytypeDesc (OqsxKey Pkey)
  private_key_info_desc evp_type = record (specific_desc only_priv) {
    d2i_pkcs8 = some (d2i_pkcs8_key evp_type);
  }

  abbrev pub public_key_info_desc : KeytypeDesc (OqsxKey Pkey)
  public_key_info_desc = record (specific_desc only_pub) { d2i_pubkey = some d2i_pubkey_key }
