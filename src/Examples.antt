-- ===== src/Examples.antt =====
-- Small stand-ins for OpenSSL and liboqs, and the theorems at concrete inputs.
pub mod Toy
mod Keys
mod Kems
mod Signatures
mod Transfers
mod Buffers
mod Encoders
mod Provider
mod Registration
