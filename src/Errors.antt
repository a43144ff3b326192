-- ===== src/Errors.antt =====
-- The error codes of Chapter 5.
pub mod Category
pub mod Directory
pub mod Exceptions
pub mod SystemError
pub mod Rethrow
