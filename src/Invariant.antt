-- ===== src/Invariant.antt =====
-- The invariant of the whole store, kept by every call: `Calls` lists the calls, `Reach` has the
-- theorem, `Authority` what backs a session in a reachable store, the other modules one lemma for each
-- operation.
pub mod Defs
pub mod OfCredentials
pub mod OfRotations
pub mod OfUsers
pub mod OfOthers
pub mod Calls
pub mod Reach
pub mod Authority
