-- ===== src/Seed.antt =====
-- internal/seediso/seediso.go: what is put on the installer ISO.
pub mod Boot
pub mod Iso
pub mod UserData
mod Tests
