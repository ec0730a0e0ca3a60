-- ===== src/Identity.antt =====
-- identity/: of the accounts, the one-time codes (identity/account/codes.go and the SQL store of
-- identity/gormstore/codes.go), signing in (identity/account/signin.go, attempts.go, signin_service.go) and
-- the re-confirmation of the password (identity/account/reauth.go, identity/gormstore/reauth.go).
pub mod Codes
pub mod SignIn
pub mod Reauth
mod Examples
