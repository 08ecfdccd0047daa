-- ===== src/Usb/Desc.antt =====
-- core/src/bt/usb_desc.c: the endpoints of the Bluetooth functions in a configuration descriptor.
pub mod Endpoints
use ghostcontrol_ps5_usb_con.Base.{
  ℕ, zero, suc, ◌+◌, ◌-◌, ◌*◌, ◌%◌, Bool, true, false, ◌&&◌, ◌||◌, not, Option, none, some, List,
  [], ◌∷◌, ◌++◌, length, get_or, set, drop, ltb, leb, ◌==◌, ◌!=◌, if◌then◌else◌,
}

abbrev pub hci_functions_max : ℕ
hci_functions_max = 4

abbrev pub dt_interface : ℕ
dt_interface = 4

abbrev pub dt_endpoint : ℕ
dt_endpoint = 5

-- `other` holds the first `n_other` entries of the source's array of eight.
pub record HciFunction : Type 0 where
  pub iface : ℕ
  pub ep_events : ℕ
  pub ep_acl_in : ℕ
  pub ep_acl_out : ℕ
  pub mps_events : ℕ
  pub mps_acl_in : ℕ
  pub mps_acl_out : ℕ
  pub other : List ℕ

abbrev pub other_max : ℕ
other_max = 8

abbrev pub new_function : ℕ → HciFunction
new_function i = record {
  iface = i;
  ep_events = 0;
  ep_acl_in = 0;
  ep_acl_out = 0;
  mps_events = 0;
  mps_acl_in = 0;
  mps_acl_out = 0;
  other = [];
}

-- The locals of the walk; `found` is `out` with its first `n` entries.
pub record Walk : Type 0 where
  pub found : List HciFunction
  pub cur : Option ℕ
  pub in_class : Bool

abbrev pub byte : List ℕ → ℕ → ℕ
byte d i = get_or d i 0

abbrev pub is_hci_class : List ℕ → Bool
is_hci_class d = byte d 5 == 0xe0 && byte d 6 == 0x01 && byte d 7 == 0x01 && byte d 3 == 0

unfoldable pub on_interface : Walk → List ℕ → Walk
on_interface w d =
    if is_hci_class d && ltb (length w.found) hci_functions_max
    then record {
      found = w.found ++ new_function (byte d 2) ∷ [];
      cur = some (length w.found);
      in_class = true;
    }
    else record { found = w.found; cur = none; in_class = is_hci_class d }

-- Bit 7 of an endpoint address, and the low two bits of its attributes.
abbrev pub is_in : ℕ → Bool
is_in addr = leb 128 (addr % 256)

abbrev pub transfer_type : ℕ → ℕ
transfer_type attr = attr % 4

unfoldable pub add_endpoint : HciFunction → ℕ → ℕ → ℕ → HciFunction
add_endpoint f addr attr mps =
    if attr == 3 && is_in addr && f.ep_events == 0
    then record f { ep_events = addr; mps_events = mps }
    else if attr == 2 && is_in addr && f.ep_acl_in == 0
    then record f { ep_acl_in = addr; mps_acl_in = mps }
    else if attr == 2 && not (is_in addr) && f.ep_acl_out == 0
    then record f { ep_acl_out = addr; mps_acl_out = mps }
    else if ltb (length f.other) other_max
    then record f { other = f.other ++ addr ∷ [] }
    else f

unfoldable pub write_endpoint : Walk → List ℕ → Option ℕ → Walk
write_endpoint w d none = w
write_endpoint w d (some i) = record w {
  found = set w.found i (
      add_endpoint (get_or w.found i (new_function 0)) (byte d 2) (transfer_type (byte d 3))
        (byte d 4 + 256 * byte d 5));
}

unfoldable pub on_endpoint : Walk → List ℕ → Walk
unfolding write_endpoint
on_endpoint w d = write_endpoint w d w.cur

-- One descriptor of length `dl` at the head of `d`.
unfoldable pub on_descriptor : Walk → List ℕ → ℕ → Walk
on_descriptor w d dl =
    if byte d 1 == dt_interface && leb 9 dl
    then on_interface w d
    else if byte d 1 == dt_endpoint && leb 7 dl && w.in_class
    then on_endpoint w d
    else w

-- The loop on fuel; `d` is what stands from the offset on, up to `len`.
unfoldable pub walk : ℕ → Walk → List ℕ → Walk
walk zero w d = w
walk (suc n) w d =
    let dl = byte d 0 in
    let rest = walk n (on_descriptor w d dl) (drop dl d) in
    if leb 2 (length d) && leb 2 dl && leb dl (length d) then rest else w

abbrev pub is_complete : HciFunction → Bool
is_complete f = f.ep_events != 0 && f.ep_acl_in != 0 && f.ep_acl_out != 0

-- The compaction in place at the end.
unfoldable pub keep_complete : List HciFunction → List HciFunction
keep_complete [] = []
keep_complete (f ∷ fs) = if is_complete f then f ∷ keep_complete fs else keep_complete fs

abbrev pub no_walk : Walk
no_walk = record { found = []; cur = none; in_class = false }

-- Each descriptor takes two bytes at least, so as many rounds as bytes are enough.
unfoldable pub find_hci_functions : List ℕ → List HciFunction
find_hci_functions cfg = keep_complete (walk (length cfg) no_walk cfg).found
