-- ===== src/Vcenter.antt =====
-- internal/backend/vcenter: the back end for vCenter.
pub mod Console
pub mod Tests
