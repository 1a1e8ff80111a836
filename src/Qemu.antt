-- ===== src/Qemu.antt =====
-- internal/backend/qemu: the back end that runs QEMU on this machine.
pub mod Detector
pub mod Host
pub mod Console
pub mod Tests
pub mod Command
pub mod Installer
pub mod Install
