-- ===== src/RedirectPolicy.antt =====
-- redirect_policy.rs: host patterns, the rules for a redirect hop, and the scope of a request.
pub mod Pattern
pub mod Policy
pub mod Scope
