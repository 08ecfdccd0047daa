-- ===== src/Usb.antt =====
-- Which USB devices are taken, and which of their endpoints: core/src/gc_usb_admission.c and core/src/bt/usb_desc.c.
mod Tests
pub mod Admission
pub mod Desc
