-- ===== src/Eth.antt =====
-- eth/types.go and the parts of eth that simulate, send and query.
pub mod Transactions
pub mod Gas
pub mod Bundles
pub mod Waiting
pub mod Queries
