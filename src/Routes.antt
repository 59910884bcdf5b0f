-- ===== src/Routes.antt =====
-- routes/: the HTTP handlers, as actions on the service's state.
pub mod Answers
pub mod Membership
pub mod Request
pub mod Pkce
pub mod ClientAuth
pub mod Dpop
pub mod Shared
pub mod Connection
pub mod Token
pub mod App
pub mod Revoke
pub mod Kept
pub mod Ending
pub mod Asking
pub mod Authorize
pub mod Callback
pub mod Logout
