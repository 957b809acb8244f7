-- ===== src/Firmware.antt =====
-- firmware/main: the persona for the ESP32 in C++, against the Python that it mirrors. A `uint8_t` is a
-- number below 256, and what a cast cuts off is written as a remainder; an `int32_t` is an integer.
pub mod Protocol
pub mod Persona
pub mod Simulated
pub mod Main
pub mod App
mod Descriptors
pub mod Tests
