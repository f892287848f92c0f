-- ===== src/Lib.antt =====
-- identity-python: a verification library for the identity layer of this repository, a Python
-- package for users, credentials, sessions, multi-factor authentication and personal access tokens.
--
-- The program is src/flametrench_identity. `InMemoryIdentityStore` (in_memory.py) keeps all state in
-- dicts and is the reference for the other store. Its methods read and write these dicts, hash
-- passwords by hashing.py, check TOTP and recovery codes by mfa.py and WebAuthn assertions by
-- webauthn.py, and return the dataclasses of types.py and mfa.py or raise the errors of errors.py.
-- Suspending or revoking a user or a credential also ends sessions, and revoking a user ends
-- credentials and access tokens: these cascades are what couples the components.
--
-- The files and the code that they model (all below src/flametrench_identity):
--   Base         lists, native numbers, texts as lists of code points, Python dicts as association
--                lists in insertion order
--   Errors       errors.py and the error classes of webauthn.py
--   Types        types.py, and the dataclasses and enums of mfa.py
--   Tables       the attributes of `InMemoryIdentityStore`
--   Result, Exec what a function or a method returns or raises; a method is a function from the
--                store to a result and the store that it leaves, also when it raises
--   Primitives   hashing.py and `_hash_token`
--   Requires     `_require_user` and the like
--   Paging       the sorting, cursors and cuts of the list methods
--   Users, Credentials, Sessions, Pats, Factors
--                the methods of `InMemoryIdentityStore` under their own names, without underscores
--   Totp, Recovery   the functions of mfa.py
--   WebAuthn     webauthn.py: Cbor has `_CborDecoder`, Cose the key parsers, the parent file
--                `webauthn_verify_assertion`
--   Invariant    every call that changes the store as one step relation, and the stores it reaches;
--                Invariant/Authority: what backs a session in them
--   Postgres     postgres.py over the tables of tests/postgres-schema.sql: Rows the columns and the
--                `_row_to_*` functions, Query the connection, Writes the INSERTs and UPDATEs under
--                the constraints, indexes and triggers, Like the search pattern, and the methods of
--                `PostgresIdentityStore` in Users, Credentials, Rotate, Sessions, Factors and Proofs;
--                Calls has the calls that write as one data type, Authority what backs a session,
--                Indexed the keys of credentials, Agreement the relation of the users of both stores
--   Tests        concrete inputs
--
-- What a method reads from outside is an argument: each reading of the clock, in the order of the
-- readings where there are several, each new id, each random token, secret and salt. SHA-256,
-- Argon2id, HMAC, Base32, Base64, JSON, percent-encoding, the Unicode tables and the signature checks
-- are parameters, in the records `Hashes`, `TotpLibraries`, `Libraries` and `UnicodeTables`; `IsExact`
-- is the hypothesis that Argon2 verifies a password against its own hash and no other password.
--
-- Times are microseconds as natural numbers. Natural numbers stand for the `limit` of the listings
-- and for times to live, which are not negative here. A text has no lone surrogates. The overflow of
-- `datetime` and Python's recursion limit are not modelled. The one fuel that bounds a recursion that
-- is not structural is that of the CBOR decoder, the length of the buffer plus one, since an item
-- takes at least one byte; `decimal` has the number itself as fuel for its digits.
--
-- In Postgres a method is a function from the database to a result and the database that it leaves. A
-- SQL statement is an operation on the rows of a table in the order of their insertion; a transaction
-- that raises restores the tables. The time of the database is an argument, `db_now`. The functions
-- of flametrench_ids are the parameter `Ids`, and the case folding of ILIKE is a function on
-- characters. What depends on these packages takes them from the record `Packages`.
--
-- Not modelled: row locks and transactions that run at the same time, so one call comes after the
-- other; the types in which other drivers give a column; store.py, a protocol without code; the
-- messages of errors; the random generators.
pub mod Base
pub mod Errors
pub mod Types
pub mod Tables
pub mod Result
pub mod Exec
pub mod WebAuthn
pub mod Totp
pub mod Recovery
pub mod Factors
pub mod Primitives
pub mod Requires
pub mod Paging
pub mod Sessions
pub mod Credentials
pub mod Pats
pub mod Users
pub mod Postgres
pub mod Invariant
pub mod Tests
