-- ===== src/UrlValidation.antt =====
-- url_validation.rs, a module for each of its parts.
pub mod Ip
pub mod Path
pub mod Domain
pub mod Validate
pub mod Resolve
