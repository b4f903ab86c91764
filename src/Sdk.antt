-- ===== src/Sdk.antt =====
-- The client of the Coder API, coder-sdk.
pub mod Http
pub mod Errors
pub mod Login
pub mod Client
