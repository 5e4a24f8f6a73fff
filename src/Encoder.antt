-- ===== src/Encoder.antt =====
-- oqsprov/oqs_encode_key2any.c: the encoders of keys, in the default build.
pub mod Blob
pub mod RoundTrip
pub mod Plain
pub mod Envelope
pub mod Key2any
pub mod Instances
pub mod Text
