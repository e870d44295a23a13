-- ===== src/Psd.antt =====
-- The PSD reader of the client, web/hydrui-client/src/file/psd.
pub mod PackBits
mod Tests
