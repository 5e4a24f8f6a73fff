-- ===== src/Provider/Answers.antt =====
-- oqsprov/oqsprov.c: what the provider answers when the core asks for its algorithms and its parameters.
use Prim.Native.String.{String}
use oqs_provider.Base.{ℕ, Bool, Option, none, some, List}
use oqs_provider.Run.{Run, ok, ◌>>=◌}
use oqs_provider.KeyMgmt.Params.{Value, Request, give}
use oqs_provider.Provider.Algorithms.{Algorithm, signatures, asym_kems, keymgmts}
use oqs_provider.Provider.Codecs.{EncoderEntry, DecoderEntry, encoder_table, decoder_table}

-- The operations that the core queries, and the tables that answer them.
pub data Operation : Type 0 where
  op_signature op_kem op_keymgmt op_encoder op_decoder : Operation
  unknown_op : ℕ → Operation

pub data Table : Type 0 where
  algorithms : List Algorithm → Table
  encoders : List EncoderEntry → Table
  decoders : List DecoderEntry → Table

-- oqsprovider_query, in the builds with and without OQS_KEM_ENCODERS.
abbrev pub query : (kem_encoders : Bool) → Operation → Option Table
query kem_encoders op_signature = some (algorithms signatures)
query kem_encoders op_kem = some (algorithms asym_kems)
query kem_encoders op_keymgmt = some (algorithms keymgmts)
query kem_encoders op_encoder = some (encoders (encoder_table kem_encoders))
query kem_encoders op_decoder = some (decoders (decoder_table kem_encoders))
query kem_encoders (unknown_op n) = none

-- The parameters that the provider is asked for, and the values that were written.
pub record ProviderRequests : Type 0 where
  pub name : Request
  pub version : Request
  pub buildinfo : Request
  pub status : Request

pub record ProviderAnswers : Type 0 where
  pub name : Option Value
  pub version : Option Value
  pub buildinfo : Option Value
  pub status : Option Value

-- oqsprovider_get_params; the build gives the version, and the text on what was built.
unfoldable pub provider_get_params :
    (version_str build_info_str : String) → ProviderRequests → Run ProviderAnswers
provider_get_params version_str build_info_str asked = do
  name ← give asked.name (ok (Value.text "OpenSSL OQS Provider"))
  version ← give asked.version (ok (Value.text version_str))
  buildinfo ← give asked.buildinfo (ok (Value.text build_info_str))
  status ← give asked.status (ok (Value.number 1))
  ok (record { name = name; version = version; buildinfo = buildinfo; status = status })
