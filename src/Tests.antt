-- ===== src/Tests.antt =====
-- Runs of the model on concrete inputs, and the theorems at inputs that meet their hypotheses.
mod Bitsets
mod Frames
pub mod Console
mod Pages
mod Digits
pub mod Floats
mod Kernel
mod Boot
pub mod Devices
mod Texts
pub mod Returns
mod Kpages
