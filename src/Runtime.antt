-- ===== src/Runtime.antt =====
-- What the handlers see of the Solana runtime: accounts with decoded contents, program-derived
-- addresses, cross-program invocations, events, and the constants of constants.rs.
mod Constants
mod Data
mod BillingEvents
mod Events
mod Invoke
mod Moves
unfoldable pub use Constants.*
unfoldable pub use Data.*
unfoldable pub use BillingEvents.*
unfoldable pub use Events.*
unfoldable pub use Invoke.*
unfoldable pub use Moves.*
