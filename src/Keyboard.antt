-- ===== src/Keyboard.antt =====
-- The PS/2 keyboard: kernel/src/drivers/keyboard/ps2_keyboard.c.
pub mod Keys
pub mod Ring
pub mod Queue
pub mod Safe
mod Tests
