-- ===== src/Switches.antt =====
-- src/switch_controller.cpp and include/switch_controller.h: the outputs of the device and the
-- rules that trip them. The definitions stand in Rule, Board, System, Conditions and Evaluate; the
-- other children prove what the controller promises.
pub mod Rule
pub mod Board
pub mod System
pub mod Conditions
pub mod Evaluate
pub mod Boot
pub mod Frame
pub mod Latching
pub mod Overload
pub mod Pulse
pub mod ForceReset
pub mod Drive
pub mod Driven
pub mod AutoOff
pub mod Pins
pub mod ReadBack
pub mod Delays
pub mod Timing
mod Tests
