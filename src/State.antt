-- ===== src/State.antt =====
-- state/: the accounts' contents. A Pubkey is the number of its 32 bytes, a u64 a natural number
-- and an i64 an integer. Reserved bytes, which the program only zeroes, have no field.
mod Stream
mod Agent
mod Subscription
mod Plan
mod Config
unfoldable pub use Stream.*
unfoldable pub use Agent.*
unfoldable pub use Subscription.*
unfoldable pub use Plan.*
unfoldable pub use Config.*
