-- ===== src/Auth.antt =====
-- Sessions: key cache, refresh-token validation, cookies, middleware and server actions.
pub mod Jwks
pub mod Validate
pub mod Token
pub mod Cookies
pub mod Proxy
pub mod Guards
pub mod Typewriter
pub mod Pages
pub mod Client
pub mod Csrf
pub mod Actions
pub mod Rpc
mod Tests
mod SessionTests
mod ActionTests
mod PageTests
mod RaceTests
mod ClientTests
