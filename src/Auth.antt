-- ===== src/Auth.antt =====
-- Authentication: services/api/src/voyagent_api/auth_inhouse and revocation.py.
pub mod Types
pub mod Repository
pub mod Passwords
pub mod Tokens
pub mod Service
pub mod Invites
pub mod Totp
pub mod Requests
pub mod Kept
pub mod Served
pub mod Drawn
pub mod Factor
pub mod History
pub mod SingleUse
pub mod OneTime
pub mod Credentials
pub mod InviteEnds
mod Tests
