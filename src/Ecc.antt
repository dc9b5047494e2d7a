-- ===== src/Ecc.antt =====
-- The error correcting code of `ECC Code`.
pub mod Field
pub mod Polynomial
pub mod Encoder
pub mod Decoder
pub mod Field257
