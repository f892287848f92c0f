-- ===== src/Types.antt =====
-- The entities of src/flametrench_identity/types.py and the records of mfa.py. A time is a count
-- of microseconds.
mod Lifecycle
mod Entities
mod Factors
unfoldable pub use Lifecycle.*
unfoldable pub use Entities.*
unfoldable pub use Factors.*
