-- ===== src/Cart.antt =====
-- The cartridge side: crates/rustyn64-cart.
pub mod Pi
pub mod Flash
pub mod Save
pub mod Pif
pub mod Rom
mod Tests
