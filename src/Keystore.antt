-- ===== src/Keystore.antt =====
-- node/validator: the keystores of the five validator clients, and the manager that keeps a key in all of
-- them.
pub mod Disk
pub mod Direct
pub mod Prysm
pub mod Manager
pub mod Frames
pub mod Stored
pub mod Keys
pub mod Order
pub mod Clients
pub mod RoundTrip
