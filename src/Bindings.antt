-- ===== src/Bindings.antt =====
-- generated/: the CommonAPI bindings of the three interfaces under fidl/, over the CommonAPI library.
pub mod CommonApi
pub mod Bus
pub mod Connectivity
pub mod Diagnostics
pub mod Vehicle
pub mod Remote
pub mod Registration
pub mod Deployment
mod Fake
mod Tests
