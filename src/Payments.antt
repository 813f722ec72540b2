-- ===== src/Payments.antt =====
-- What the payments of src/contract.rs and src/allowances.rs do when they succeed: `Transfer`,
-- `TransferFrom`, `Send`, `SendFrom`, `Burn`, `BurnFrom`.
pub mod Demurred
pub mod Plain
pub mod Periods
pub mod Conservation
pub mod Totals
pub mod Branches
pub mod Returns
pub mod Limits
