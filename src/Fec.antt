-- ===== src/Fec.antt =====
-- moonlight-common-go/fec/fec.go: Reed-Solomon codes over GF(2 ^ 8).
pub mod Gf
pub mod Tables
pub mod Field
pub mod Polynomial
pub mod Scalar
pub mod Sums
pub mod Matrix
pub mod Exchange
pub mod Pivots
pub mod Rounds
pub mod Elimination
pub mod Inversion
pub mod Cauchy
pub mod Codec
pub mod Bytes
pub mod Coding
pub mod Generator
pub mod Erasure
pub mod Decoding
pub mod Kernel
pub mod Codewords
pub mod Outputs
pub mod Reconstruction
pub mod Guards
pub mod Recovery
pub mod RoundTrip
pub mod Losses
