-- ===== src/Supply.antt =====
-- Who may create tokens, and how many: `execute_mint` and `execute_update_minter` of
-- src/contract.rs.
pub mod Mint
pub mod Refusals
pub mod Minter
pub mod Returns
