-- ===== src/Ota.antt =====
-- src/ota_client.cpp and include/ota_client.h: the firmware update client.
-- What the network, the flash and the hash library answer in a tick is a parameter; the calls that
-- the client makes of them are recorded in order.
pub mod State
pub mod Client
pub mod Inv
pub mod Verified
mod Tests
