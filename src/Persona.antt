-- ===== src/Persona.antt =====
-- host/src/zwoproxy/personas/: the EAF as an ASIAIR sees it.
pub mod Eaf
pub mod Descriptors
pub mod Protocol
pub mod Device
mod Tests
