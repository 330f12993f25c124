-- ===== src/Drivers.antt =====
-- Device drivers, kernel/src/drivers. A port read is an argument of the function that makes it.
pub mod Rtc
pub mod Keyboard
pub mod Mouse
pub mod Timer
pub mod Ata
pub mod Pci
pub mod Polling
pub mod Serial
mod Tests
