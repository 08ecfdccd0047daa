-- ===== src/Lib.antt =====
-- Ghostcontrol for the PS5: the core's own logic, modelled from its C source.
--
-- The resident core (core/src) takes USB and Bluetooth controllers, makes them pads of the console
-- and keeps a Bluetooth host of its own. This library models the parts that decide, and takes
-- what they call of the platform as arguments. A file names its source in its first line.
--
--   Bt           core/src/bt: LinkPolicy (linkpolicy.c, which links are taken and when one is idle),
--                HandleEpoch (handle_epoch.c, which link owns a connection handle), EvStream
--                (evstream.c, events out of USB fragments), HciRx (hci_rx.c, the queue of received
--                packets, which feeds the fragments to EvStream), Generic (generic.c, any HID pad by
--                its descriptor: Descriptor the walk, Mapping the default roles, Reading a report),
--                Crc32 (crc32.c, the checksum of a report), Host (host.c, a Classic link: how a frame
--                is sent with the buffers of the controller, Acl the frames that come in, Signals
--                the channels with Commands the signaling, Sdp the SDP client, Store the file of the paired pads).
--   Pad          Identify (gc_vpad_identify.c, which device a new virtual pad became), Ds4Policy
--                (gc_ds4_policy.c, which pads a DualShock 4 source feeds), AppPad (gc_app_pad.c, the
--                pad an app owns: Exchange has the poll and the acknowledgement, Wire the decimal
--                fields and the reply's reader, Command the requests), VdaIdentity
--                (gc_vda_identity.c, which virtual devices may be asked for), Rawmap (gc_rawmap.c,
--                the digital bytes of a raw report, and its bits as the sources of buttons).
--   Usb          Admission (gc_usb_admission.c, families and refusals), Desc (bt/usb_desc.c, the
--                endpoints of a configuration descriptor).
--   Hid          gc_hid.c: Descriptor (the report descriptor parser: Elements makes the fields of an
--                input item, Main the loop), Report (one report onto the pad: Input the passes over
--                standard usages, Generic the reading by position), Values (the values by
--                coordinate), Bind and Profile (the bindings of a profile), Bits, Pad and Layout
--                (what these share).
--   Controllers  PadData (gc_types.h), Nintendo (controller_nintendo.c, reports and handshake) and
--                Logitech (controller_logitech.c, the sticks from a square onto a circle), Mamba
--                (controller_mamba.c, XUSB reports and their bits in Pad.Rawmap), Ds3 and Ds4
--                (controller_ds3.c, controller_ds4.c: the devices they take and their reports).
--   Core         Singleton (gc_singleton.c, one instance takes over from the one before), Ini
--                (gc_ini.c, the reader of INI texts).
--   Update       Policy (gc_update_policy.c, versions and the names of releases).
--   Base         Lists, tests, fixed-width sums and binary digits that these share.
--
-- A C structure is a record with the source's field names, an enumeration a data type, a function
-- that changes an object a function from the old state to the new one and the result. Numbers are
-- natural numbers; where a uint32_t or a uint64_t can wrap, the remainder by the power of two is
-- written out, and signed numbers are integers. An array index that is out of range reads 0 in the
-- model; that the code never does that is proved where a theorem says so. A null pointer is the
-- missing value where the code gives it a meaning, and is left out where the code only refuses it.
--
-- Loops are recursion on the list that they walk, or on fuel: `drain`, `feed_loop` and `read_acl`
-- (Bt) get as much fuel as there are bytes, since each round takes 2, 1 and 4 of them at least;
-- the walk of Usb.Desc takes 2 in a round, the lines of Core.Ini at least 1. Newton's iteration of
-- Controllers.Logitech gets as much as its first value, which every round makes smaller, and gives
-- nothing when that is used up. The waiting loops of Core.Singleton run as often as the source's
-- constants say.
--
-- The platform is an argument: the POSIX calls of the takeover (`Posix`), the USB endpoint of the
-- Nintendo handshake (`UsbOut`), the callback of the INI reader. Not modelled: the ioctls,
-- sockets, threads and clocks of the console (ps5_*.c, hci_usb.c, usb_helpers.c, gc_main.c), the
-- audio codecs and the profiles of core/src/bt, the HTTP and IPC services, the texts that snprintf
-- makes, the user interface and the tools. Freeing a link in bt/host.c clears its record; the
-- callback and the LE attempt that it also ends are left out. The HCI events and the pairing of
-- bt/host.c, the state machines of bt/le.c, the texts of gc_profile.c and the mapping files of
-- bt/generic.c are still open.
pub mod Base
pub mod Bt
pub mod Pad
pub mod Usb
pub mod Core
pub mod Hid
pub mod Update
pub mod Controllers
