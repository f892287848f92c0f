-- ===== src/Postgres.antt =====
-- `PostgresIdentityStore` of postgres.py over the tables of tests/postgres-schema.sql. `Rows` has the
-- rows and the `_row_to_*` functions, `Query` the database and what a method does to it, `Writes`
-- the statements that write with the constraints of the schema, `Calls` the calls as one data type.
-- `Users` to `Proofs` have the methods; `Atomic`, `Pages`, `Authority`, `Indexed` and
-- `Agreement` are about them.
pub mod Rows
pub mod Query
pub mod Writes
pub mod Like
pub mod Users
pub mod Credentials
pub mod Rotate
pub mod Sessions
pub mod Factors
pub mod Proofs
pub mod Calls
pub mod Atomic
pub mod Pages
pub mod Rowwise
pub mod Authority
pub mod Agreement
pub mod Indexed
