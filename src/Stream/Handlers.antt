-- ===== src/Stream/Handlers.antt =====
-- instructions/streaming/: the handlers, one module each.
mod Control
mod Create
mod Execute
mod Pause
mod Resume
mod Cancel
mod Rate
unfoldable pub use Control.*
unfoldable pub use Create.*
unfoldable pub use Execute.*
unfoldable pub use Pause.*
unfoldable pub use Resume.*
unfoldable pub use Cancel.*
unfoldable pub use Rate.*
