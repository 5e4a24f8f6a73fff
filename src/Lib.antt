-- ===== src/Lib.antt =====
-- oqs-provider: an OpenSSL 3 provider that makes liboqs' key encapsulation mechanisms (KEMs) and
-- signatures available, alone and as hybrids with a classical key of OpenSSL.
--
-- The parts and how they interact. The core of OpenSSL initialises the provider
-- (oqsprov/oqsprov.c), which takes the core's functions from a table, keeps those for BIOs
-- (oqsprov/oqsprov_bio.c), patches its code points (oqsprov/oqsprov_capabilities.c) and object
-- identifiers from the environment, registers the identifiers and stores their numbers in the table of
-- names (oqsprov/oqsprov_keys.c). It answers with tables of algorithms, whose functions are the
-- following. A key object (OQSX_KEY, oqsprov/oqs_prov.h and oqsprov/oqsprov_keys.c) has one component,
-- liboqs' key, or two, a classical key and liboqs' key. The two keys of a hybrid stand in one buffer
-- behind four bytes with the length of the classical one; an array of pointers gives where each begins.
-- Key management (oqsprov/oqs_kmgmt.c) makes, matches, exports, imports and sets such keys, the
-- encoders (oqsprov/oqs_encode_key2any.c) write them through a BIO of the core, the decoders
-- (oqsprov/oqs_decode_der2key.c with oqsprov/oqs_endecoder_common.c) and oqsx_key_op read them back,
-- and the KEM (oqsprov/oqs_kem.c) and the signature (oqsprov/oqs_sig.c) use their components.
--
-- The files.
--   Base, Run, Memory: names that all modules share, the result of a C function, and buffers;
--     Base/Texts is texts as lists of character codes.
--   Extern: what OpenSSL and liboqs do, as records of functions that every definition takes.
--   Key: OQSX_KEY and the functions on it. Key/New is oqsx_key_new with oqsx_hybsig_init,
--     oqshybkem_init_ecp and oqshybkem_init_ecx, and Key/New/Total makes keys from the table of names;
--     Key/Gen is oqsx_key_gen with oqsx_key_gen_evp_key and oqsx_key_gen_oqs; Key/Decode is
--     oqsx_key_op, oqsx_key_recreate_classickey, oqsx_key_from_x509pubkey and oqsx_key_from_pkcs8;
--     Key/References is oqsx_key_up_ref and oqsx_key_free with the contexts of oqsprov/oqs_kem.c and
--     oqsprov/oqs_sig.c that hold a key. Key/Shape says how long the buffers of a key are, Key/Layout
--     how a hybrid buffer is laid out, Key/Material what a full key is.
--   NidTable: nid_names, oqs_set_nid and the getters.
--   Bio: oqsprov/oqsprov_bio.c; Bio/Balance is about a core that counts the references to its BIOs.
--   Env: getenv and atoi as the patching functions use them.
--   Encoder: Encoder/Blob is oqsx_spki_pub_to_der and oqsx_pki_priv_to_der, Encoder/Envelope the
--     structures around them up to key_to_epki_der_priv_bio and its like, Encoder/Key2any the context,
--     key2any_encode and MAKE_ENCODER, Encoder/Text the text encoder, Encoder/Instances the uses of
--     MAKE_ENCODER and MAKE_TEXT_ENCODER.
--   Decoder: der2key_check_selection and oqs_der2key_decode, for any functions that read the DER;
--     Decoder/Keytype is those functions for a PrivateKeyInfo and a SubjectPublicKeyInfo, with the
--     DO_ macros, Decoder/Instances the uses of MAKE_DECODER, Decoder/Read is oqs_read_der, and
--     Decoder/Keymgmt is oqsprov/oqs_endecoder_common.c and der2key_export_object.
--   Pipeline, Pipeline/Public: an encoder and the decoder of what it wrote, for a private key and for
--     a public one.
--   Kem: the encapsulation and decapsulation functions.
--   Sig: oqs_sig_sign and oqs_sig_verify; Sig/Context is the context with DigestSign and
--     DigestVerify and its parameters; Sig/Buffers is oqs_sig_freectx and oqs_sig_dupctx with the
--     blocks of memory that a context owns.
--   KeyMgmt: oqsx_has, oqsx_match, oqsx_import, oqsx_export, oqsx_genkey and oqsx_key_fromdata;
--     KeyMgmt/Params is oqsx_get_params, oqsx_set_params, the generation context and oqsx_load,
--     KeyMgmt/Constructors the constructors of each algorithm, KeyMgmt/Handshake a key share of
--     hybrid KEM keys.
--   Provider: OSSL_provider_init; Provider/Answers is oqsprovider_query and oqsprovider_get_params,
--     Provider/Oids oqs_oid_alg_list and oqs_patch_oids, Provider/Algorithms the tables of algorithms,
--     Provider/Codecs those of encoders and decoders (oqsprov/oqsencoders.inc and
--     oqsprov/oqsdecoders.inc), Provider/Registration the loop over the identifiers.
--   Capabilities: oqs_patch_codepoints and oqs_provider_get_capabilities, with the lists in
--     Capabilities/Groups and Capabilities/Sigalgs.
--   Examples, Key/New/Examples, Key/References/Examples: the theorems at concrete inputs.
--
-- How the code is modelled. The build is the default one: no NOPUBKEY_IN_PRIVKEY, no
-- USE_ENCODING_LIB; NidTable has both tables. A function returns a run: a value, a failure with
-- the last reason that was raised, or an access outside of a buffer or through a null or unset
-- pointer. Where the state after a failure matters, it is part of the value. A buffer is a list of
-- bytes of its allocated size, a pointer into it an offset. The length of a classical key is
-- stored in an `int` and extended to `size_t`, which is written out, as are pointer sums and the
-- difference of sizes in oqs_sig_verify. The reference count of a key is a C int, too, in the
-- build with atomics: oqsx_key_up_ref is undefined at 2147483647, where the sum of the fetched
-- count and 1 does not fit, and the theorems on references leave out calls that ask for a reference
-- then. Randomness is an argument `seed`, and an allocation succeeds or fails by a function of its
-- place or size. No recursion needs fuel: it is on lists.
-- The arrays of components and the copy of the name that oqsx_key_new allocates without a check
-- are always there. A buffer that is handed to OpenSSL as a pointer and a length is read for the
-- whole length, where OpenSSL may refuse it without reading: verify_classical and recreate_public
-- end in an access outside of a buffer then, and no theorem rests on that. recreate_private_pub does
-- so for a null component, which OpenSSL takes for no buffer.
--
-- What is not modelled. Debug output and messages; the build with USE_ENCODING_LIB; the DER and PEM
-- writers and readers of OpenSSL, which are parameters; the writers for type-specific structures, which
-- no encoder uses; the declarations of oqsprov/oqs_prov.h, and the lists of parameters that OpenSSL may
-- ask for; the calls of OpenSSL that get_aid of oqsprov/oqs_sig.c makes, which are one parameter; the
-- memory of temporary structures inside the encoder, and the freeing of the contexts of encoders,
-- decoders and key generation. For a number that no `int` holds, C says nothing of
-- atoi: the model keeps its low 32 bits.
pub mod Base
pub mod Run
pub mod Memory
pub mod Extern
pub mod Key
pub mod NidTable
pub mod Bio
pub mod Decoder
pub mod Encoder
pub mod Kem
pub mod Sig
pub mod KeyMgmt
pub mod Pipeline
pub mod Examples
pub mod Env
pub mod Provider
pub mod Capabilities
