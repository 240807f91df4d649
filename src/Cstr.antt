-- ===== src/Cstr.antt =====
-- c_utils/cstr.c and c_utils/cstr.h: the counted C string.
pub mod Capacity
pub mod Memory
pub mod Block
pub mod Create
pub mod Assign
pub mod Stored
pub mod Trim
pub mod Query
pub mod Edit
pub mod Search
pub mod Program
pub mod Shared
mod Tests
