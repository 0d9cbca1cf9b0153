-- ===== src/Common.antt =====
-- pkg/common.
pub mod HexBytes
pub mod Exec
pub mod Files
pub mod Net
pub mod Rand
pub mod Reboot
