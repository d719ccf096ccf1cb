-- ===== src/EntityId.antt =====
-- Entity ids (src/EntityIdHelper.js): `shard.realm.num`, with their checksum, order and addresses.
pub mod Checksum
pub mod Id
pub mod Parse
pub mod Solidity
pub mod Account
mod Tests
