-- ===== src/Usb/Tests.antt =====
-- The theorems on core/src/gc_usb_admission.c and core/src/bt/usb_desc.c at concrete inputs.
use ghostcontrol_ps5_usb_con.Base.{ℕ, ◌≤◌, ◌≡◌, ◌≢◌, refl, some, List, [], ◌∷◌, length, All, arith}
use ghostcontrol_ps5_usb_con.Usb.Admission.{
  UsbInterface, iface_hid, unqualified, nintendo, skip, interface_is_gip, kind_agrees, is_skipped,
  find_pair, qualify, family,
}
use ghostcontrol_ps5_usb_con.Usb.Desc.{
  find_hci_functions, walk, keep_complete, on_descriptor, on_interface, on_endpoint, write_endpoint,
  add_endpoint,
}
use ghostcontrol_ps5_usb_con.Usb.Desc.Endpoints.{IsHci, find_hci_functions-IsHci}

-- One Bluetooth function: an interface and its three endpoints.
abbrev config : List ℕ
config =
    9 ∷ 4 ∷ 0 ∷ 0 ∷ 3 ∷ 0xe0 ∷ 1 ∷ 1 ∷ 0 ∷ 7 ∷ 5 ∷ 0x81 ∷ 3 ∷ 16 ∷ 0 ∷ 1 ∷ 7 ∷ 5 ∷ 0x82 ∷ 2 ∷ 64 ∷ 0
    ∷ 0 ∷ 7 ∷ 5 ∷ 0x02 ∷ 2 ∷ 64 ∷ 0 ∷ 0 ∷ []

config_found : length (find_hci_functions config) ≡ 1
unfolding find_hci_functions walk keep_complete on_descriptor on_interface on_endpoint
    write_endpoint add_endpoint
config_found = refl

find_hci_functions-IsHci_example :
    All IsHci (find_hci_functions config) × (length (find_hci_functions config) ≤ 4)
find_hci_functions-IsHci_example = find_hci_functions-IsHci config

abbrev pad_interface : UsbInterface
pad_interface = record {
  interface_class = 3;
  interface_subclass = 0;
  interface_protocol = 0;
  alternate_setting = 0;
  kind = iface_hid;
}

pad_is_granted : family 0x057e 0x2009 (some pad_interface) ≡ nintendo
unfolding family interface_is_gip qualify find_pair kind_agrees is_skipped skip
pad_is_granted = refl

granted : family 0x057e 0x2009 (some pad_interface) ≢ unqualified
granted = rw pad_is_granted (ground arith)
