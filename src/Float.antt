-- ===== src/Float.antt =====
-- f64, which the program takes from the language: its carrier and operations are a parameter, so
-- that whatever is proved holds of binary64 with its rounding, infinities and NaN.
pub mod Laws
pub mod Sample
pub use Laws.*
