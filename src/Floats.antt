-- ===== src/Floats.antt =====
-- The arithmetic of the C type `float`, which the compiler and the FPU supply: an interface that
-- the models take as an instance argument, and the few laws of IEEE 754 that proofs rely on.
mod Laws
mod Fixed
unfoldable pub use Laws.*
unfoldable pub use Fixed.*
