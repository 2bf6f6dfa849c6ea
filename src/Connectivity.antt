-- ===== src/Connectivity.antt =====
-- src/connectivity_manager.cpp: the publishing of logged batches, and the state machine of the
-- network.
mod Base64
mod Decode
mod Publish
mod Texts
mod Conserve
mod Delivery
mod Emptied
mod Wifi
mod Settled
mod Tests
