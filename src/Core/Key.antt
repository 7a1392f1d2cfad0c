-- ===== src/Core/Key.antt =====
-- src/core/key.hpp, `Key`: USB HID usages. A key is its number, since any may come off the wire.
mod Letters
mod Symbols
mod Navigation
mod Keypad
mod International
mod Accounting
mod Modifiers
mod Media
pub use Letters.*
pub use Symbols.*
pub use Navigation.*
pub use Keypad.*
pub use International.*
pub use Accounting.*
pub use Modifiers.*
pub use Media.*
