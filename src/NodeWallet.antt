-- ===== src/NodeWallet.antt =====
-- node/wallet: the node's wallet with its address, password and local keystore managers.
pub mod Files
pub mod Local
pub mod State
pub mod Methods
pub mod Api
pub mod Restart
pub mod Recovery
pub mod Masquerade
pub mod Keeps
pub mod Invariant
pub mod Kept
pub mod Errors
