-- ===== src/Types.antt =====
-- pkg/types: the errors and requests that the codec and the server pass to one another, and hashes.
pub mod Rpc
pub mod Hash
pub mod Version
