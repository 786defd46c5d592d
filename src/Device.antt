-- ===== src/Device.antt =====
-- internal/device/handler.go: the device flow.
pub mod Handler
mod Facts
mod History
mod Outcomes
mod Progress
mod Examples
