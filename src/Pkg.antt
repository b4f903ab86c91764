-- ===== src/Pkg.antt =====
-- The packages that the commands use: clog and tablewriter under pkg, and internal/version.
pub mod ErrGroup
pub mod Table
pub mod Version
