-- ===== src/Proxmox.antt =====
-- internal/backend/proxmox: the build of a VM or template on a Proxmox server.
pub mod Values
pub mod Options
pub mod CloudInit
pub mod Disk
pub mod Config
pub mod Vm
pub mod Client
pub mod Storage
pub mod Install
mod Tests
