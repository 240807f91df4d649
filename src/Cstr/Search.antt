-- ===== src/Cstr/Search.antt =====
-- The substring searches of c_utils/cstr.c.
pub mod Spec
pub mod Sunday
pub mod Kmp
pub mod BoyerMoore
pub mod Agree
pub mod CountStr
mod Tests
