-- ===== src/Core.antt =====
-- core/: shared kinds, errors and the exception monads.
pub mod Errors
pub mod Types
pub mod Result
