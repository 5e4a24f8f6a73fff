-- ===== src/Examples/Toy.antt =====
-- OpenSSL and liboqs as functions on short byte strings: a key is its own encoding, agreement adds byte
-- by byte, and a signature is the hash with a byte in front.
use Prim.Native.String.{String}
use oqs_provider.Base.{ℕ, ◌+◌, ◌==◌, ◌&&◌, Bool, true, false, none, some, [], ◌∷◌, length, refl}
use oqs_provider.Memory.{Bytes}
use oqs_provider.Extern.{
  evp_ec, evp_x25519, prime256v1, nid_undef, OqsSig, OqsKem, Evp, EvpMd, Oqs, Alloc,
}
use oqs_provider.Key.{EvpInfo, OqsxKey, sig_ctx, kem_ctx, sig, hyb_sig, ecx_hyb_kem}
use oqs_provider.Key.Shape.{IsHybrid, IsPlain, IsNew}

abbrev pub mix : Bytes → Bytes → Bytes
mix [] ys = []
mix (x ∷ xs) [] = []
mix (x ∷ xs) (y ∷ ys) = (x + y) ∷ mix xs ys

abbrev pub equal_bytes : Bytes → Bytes → Bool
equal_bytes [] [] = true
equal_bytes [] (y ∷ ys) = false
equal_bytes (x ∷ xs) [] = false
equal_bytes (x ∷ xs) (y ∷ ys) = x == y && equal_bytes xs ys

abbrev pub toy_evp : Evp
toy_evp = record {
  Pkey = Bytes;
  new_raw_public_key = λ type bs. some bs;
  new_raw_private_key = λ type bs. some bs;
  get_raw_public_key = λ p. some p;
  get_raw_private_key = λ p. some p;
  d2i_public_key = λ type curve bs. some bs;
  d2i_private_key = λ type bs. some bs;
  i2d_public_key = λ p. some p;
  i2d_private_key = λ p. some p;
  param_ctx = λ type nid. true;
  keygen = λ type nid seed. some (seed ∷ 1 ∷ []);
  d2i_auto_private_key = λ bs. some bs;
  set1_encoded_public_key = λ type nid bs. some bs;
  get1_encoded_public_key = λ p. some p;
  derive = λ p q room. some (mix p q);
  hash = λ digest bs. length bs ∷ [];
  sign_ctx = λ p. true;
  verify_ctx = λ p. true;
  rsa_padding = λ p. true;
  sign = λ p digest h room seed. some (77 ∷ h);
  verify = λ p digest h s. equal_bytes s (77 ∷ h);
}

-- The same with a key generator that fails.
abbrev pub failing_evp : Evp
failing_evp = record toy_evp { keygen = λ type nid seed. none }

abbrev pub toy_sig : OqsSig
toy_sig = record {
  claimed_nist_level = 2;
  length_public_key = 3;
  length_secret_key = 2;
  length_signature = 2;
}

abbrev pub toy_kem : OqsKem
toy_kem = record {
  length_public_key = 3;
  length_secret_key = 2;
  length_ciphertext = 2;
  length_shared_secret = 2;
}

abbrev pub first_of : Bytes → ℕ
first_of [] = 0
first_of (x ∷ xs) = x

abbrev pub toy_oqs : Oqs
toy_oqs = record {
  sig_new = λ name. some toy_sig;
  kem_new = λ name. some toy_kem;
  kem_keypair = λ k seed. some (seed ∷ 5 ∷ 6 ∷ [], seed ∷ 9 ∷ []);
  sig_keypair = λ s seed. some (seed ∷ 5 ∷ 6 ∷ [], seed ∷ 9 ∷ []);
  encaps = λ k public seed. some (seed ∷ 4 ∷ [], seed ∷ 3 ∷ []);
  decaps = λ k ct private. some (first_of ct ∷ 3 ∷ []);
  sign = λ s msg private seed. some (length msg ∷ seed ∷ []);
  verify = λ s msg signature public. first_of signature == length msg;
}

abbrev pub toy_md : EvpMd
toy_md = record {
  Md = String;
  MdCtx = Bytes;
  fetch = λ name properties. some name;
  nid_is_undef = λ m. false;
  digest_init = λ m. some [];
  digest_update = λ c bs. some (length bs ∷ c);
  digest_final = λ c. some (c, c);
  copy = λ c. some c;
  algorithm_id = λ name. some (6 ∷ []);
  name_prefix = λ name. name;
}

abbrev pub always : Alloc
always = λ site. true

-- A row for DER keys, whose private keys may be shorter than 4 bytes, and one for raw keys.
abbrev pub der_info : EvpInfo
der_info = record {
  keytype = evp_ec;
  nid = prime256v1;
  raw_key_support = false;
  length_public_key = 2;
  length_private_key = 4;
  kex_length_secret = 2;
  length_signature = 3;
}

abbrev pub raw_info : EvpInfo
raw_info = record der_info {
  keytype = evp_x25519;
  nid = nid_undef;
  raw_key_support = true;
  length_private_key = 2;
}

-- New keys: a hybrid signature key, a hybrid KEM key and a key of liboqs alone.
abbrev pub sig_key : OqsxKey Bytes
sig_key = record {
  keytype = hyb_sig;
  qs_ctx = sig_ctx toy_sig;
  classical_pkey = none;
  evp_info = some der_info;
  numkeys = 2;
  privkeylen = 10;
  pubkeylen = 9;
  bit_security = 128;
  tls_name = "p256_dilithium2";
  propq = none;
  references = 1;
  comp_privkey = [];
  comp_pubkey = [];
  privkey = none;
  pubkey = none;
}

abbrev pub kem_key : OqsxKey Bytes
kem_key = record sig_key {
  keytype = ecx_hyb_kem;
  qs_ctx = kem_ctx toy_kem;
  evp_info = some raw_info;
  privkeylen = 8;
  tls_name = "x25519_kyber512";
}

abbrev pub plain_key : OqsxKey Bytes
plain_key = record sig_key {
  keytype = sig;
  evp_info = none;
  numkeys = 1;
  privkeylen = 2;
  pubkeylen = 3;
  tls_name = "dilithium2";
}

pub sig_key-IsHybrid : IsHybrid sig_key der_info
sig_key-IsHybrid = record {
  two = refl;
  info = refl;
  type = refl;
  fits = tt;
  publen = refl;
  privlen = refl;
}

pub kem_key-IsHybrid : IsHybrid kem_key raw_info
kem_key-IsHybrid = record {
  two = refl;
  info = refl;
  type = refl;
  fits = tt;
  publen = refl;
  privlen = refl;
}

pub plain_key-IsPlain : IsPlain plain_key
plain_key-IsPlain = record {
  one = refl;
  no_info = refl;
  type = refl;
  fits = tt;
  publen = refl;
  privlen = refl;
}

pub sig_key-IsNew : IsNew sig_key
sig_key-IsNew = record {
  one_reference = refl;
  no_pubkey = refl;
  no_privkey = refl;
  no_classical = refl;
}

pub kem_key-IsNew : IsNew kem_key
kem_key-IsNew = record {
  one_reference = refl;
  no_pubkey = refl;
  no_privkey = refl;
  no_classical = refl;
}

pub plain_key-IsNew : IsNew plain_key
plain_key-IsNew = record {
  one_reference = refl;
  no_pubkey = refl;
  no_privkey = refl;
  no_classical = refl;
}
