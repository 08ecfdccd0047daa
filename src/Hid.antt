-- ===== src/Hid.antt =====
-- HID reports over USB, core/src/gc_hid.h and the helpers of core/src/gc_hid.c that its parts share.
-- An array with a count is the list of its first `count` entries.
mod Layout
mod Bits
pub use Layout.*
pub use Bits.*
pub mod Pad
pub mod Input
pub mod Generic
pub mod Values
pub mod Bind
pub mod Profile
pub mod Report
pub mod Descriptor
mod Tests
