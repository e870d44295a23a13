-- ===== src/Store.antt =====
-- The stores of the client, web/hydrui-client/src/store.
pub mod Search
pub mod Page
pub mod Popup
pub mod Toast
mod Tests
mod PopupTests
mod PageTests
