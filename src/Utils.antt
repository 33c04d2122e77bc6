-- ===== src/Utils.antt =====
-- utils/: helpers that the other parts share. A text is the list of its bytes.
pub mod Hex
pub mod Input
