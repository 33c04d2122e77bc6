-- ===== src/Tests.antt =====
-- Concrete inputs: tests of the definitions, and the theorems applied where their hypotheses hold.
mod Toy
mod Beacon
mod Calls
mod Config
mod Services
mod Wallet
mod Masquerade
mod Keystore
mod Utils
mod Eth
