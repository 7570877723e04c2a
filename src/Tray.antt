-- ===== src/Tray.antt =====
-- internal/tray: the consent of the user.
pub mod Consent
