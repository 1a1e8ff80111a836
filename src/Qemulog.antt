-- ===== src/Qemulog.antt =====
-- internal/qemulog/qemulog.go: the writer that strips terminal escapes from a console log and
-- squeezes its blank lines.
pub mod Sanitize
pub mod Writer
mod Tests
