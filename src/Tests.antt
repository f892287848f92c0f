-- ===== src/Tests.antt =====
-- Concrete inputs for the theorems: the data, and one file for each part of the code.
pub mod Data
pub mod OfUsers
pub mod OfSessions
pub mod OfCredentials
pub mod OfFactors
pub mod OfWebAuthn
pub mod OfInvariant
pub mod OfPats
pub mod OfPostgres
