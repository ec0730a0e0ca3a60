-- ===== src/Authz.antt =====
-- authz/: who may do what, and where.
pub mod Errors
pub mod Types
pub mod Qualifiers
pub mod Words
pub mod Hierarchy
pub mod Clause
pub mod Catalogue
pub mod Role
pub mod Effective
pub mod Cache
pub mod Engine
pub mod Delegation
pub mod Admin
mod Examples
