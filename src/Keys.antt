-- ===== src/Keys.antt =====
-- src/keys.rs, as far as it is modelled: the walk over DER, the scalar of a key and base64.
pub mod Der
pub mod Scalar
pub mod Base64
