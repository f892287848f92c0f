-- ===== src/Factors.antt =====
-- The MFA factors of `InMemoryIdentityStore` (in_memory.py): `Entries` has the guards and the writes
-- to the dicts, the other modules the operations.
pub mod Entries
pub mod Enroll
pub mod Confirm
pub mod Verify
pub mod Singleton
pub mod RecoveryUse
