-- ===== src/Transfer.antt =====
-- The transfers of src/account/TransferTransaction.js, kept in three lists. Amounts of tokens are
-- Longs, and an amount of U2U is the number of its smallest units; both are integers, added as Longs.
pub mod Types
pub mod Long
pub mod Add
pub mod Merge
mod Tests
