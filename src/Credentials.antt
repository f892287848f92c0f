-- ===== src/Credentials.antt =====
-- The credentials of `InMemoryIdentityStore` (in_memory.py): `Entries` has the writes to the dicts,
-- the other modules the operations.
pub mod Entries
pub mod Create
pub mod Rotate
pub mod Change
pub mod Verify
pub mod Keys
pub mod Index
pub mod Sound
pub mod Complete
pub mod Passwords
pub mod Logout
