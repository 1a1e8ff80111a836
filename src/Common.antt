-- ===== src/Common.antt =====
-- internal/common/common.go: the values and checks that every backend shares.
pub mod Yaml
pub mod Uefi
pub mod DiskSize
pub mod Hardware
pub mod Names
mod Tests
