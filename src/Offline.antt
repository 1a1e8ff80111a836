-- ===== src/Offline.antt =====
-- internal/offlineapt/offlineapt.go: the repository of packages that goes on the installer ISO.
pub mod Quote
pub mod Config
pub mod Install
pub mod Uris
pub mod Index
pub mod Host
pub mod Build
pub mod Codename
mod Tests
