-- ===== src/Capture.antt =====
-- internal/capture: the privacy gate and the frames that pass it.
pub mod Gate
pub mod Image
pub mod Gdi
pub mod Windows
pub mod Downscale
pub mod Dxgi
pub mod Monitor
