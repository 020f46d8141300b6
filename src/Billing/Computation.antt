-- ===== src/Billing/Computation.antt =====
-- instructions/billing/: the encrypted computations that a subscription asks for, and their callbacks.
mod Common
mod Validation
mod Report
mod Usage
mod UsageCallback
mod Record
mod RecordCallback
unfoldable pub use Common.*
unfoldable pub use Validation.*
unfoldable pub use Report.*
unfoldable pub use Usage.*
unfoldable pub use UsageCallback.*
unfoldable pub use Record.*
unfoldable pub use RecordCallback.*
