-- ===== src/Cmd.antt =====
-- The commands of internal/cmd, with the helpers of internal/coderutil that they call.
pub mod Api
pub mod Lookup
pub mod Update
pub mod SshConfig
pub mod Urls
pub mod Top
pub mod BuildLog
pub mod Change
pub mod Fleet
pub mod Create
pub mod FromConfig
pub mod Policy
pub mod Providers
pub mod Tokens
pub mod Satellites
pub mod Tags
pub mod ApiErrors
pub mod Tunnel
pub mod HumanTable
