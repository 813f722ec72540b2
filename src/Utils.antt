-- ===== src/Utils.antt =====
-- The parts of packages/utils beside its expirations: helpers that contracts share.
pub mod Scheduled
pub mod Threshold
pub mod Payment
pub mod Pagination
pub mod NativeBalance
pub mod ParseReply
