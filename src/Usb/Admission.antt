-- ===== src/Usb/Admission.antt =====
-- core/src/gc_usb_admission.c: the refusal table, the families and the empty route template.
-- The output plan is never null; a text the source points to is a constructor of `Refusal`.
pub mod Families
use ghostcontrol_ps5_usb_con.Base.{
  ℕ, zero, suc, ◌+◌, Bool, true, false, ◌&&◌, ◌||◌, Option, none, some, List, [], ◌∷◌, ◌==◌, ◌!=◌,
  if◌then◌else◌,
}

pub data InterfaceKind : Type 0 where
  iface_none iface_hid iface_hid_raw iface_xusb iface_gip : InterfaceKind

pub record UsbInterface : Type 0 where
  pub interface_class : ℕ  -- uint8, as the next three
  pub interface_subclass : ℕ
  pub interface_protocol : ℕ
  pub alternate_setting : ℕ
  pub kind : InterfaceKind

pub data UsbFamily : Type 0 where
  unqualified gip ds3 nintendo logitech family_count : UsbFamily

unfoldable pub skip : ℕ → ℕ → ℕ → ℕ → Bool
skip device_class interface_class interface_subclass interface_protocol =
    if device_class == 0x09 || interface_class == 0x09
    then true
    else if device_class == 0x08 || interface_class == 0x08
    then true
    else if device_class == 0xef
        || device_class == 0xe0
        || interface_class == 0xef
        || interface_class == 0xe0
    then true
    else if interface_class == 0x03
        && interface_subclass == 0x01
        && (interface_protocol == 0x01 || interface_protocol == 0x02)
    then true
    else false

pub record FamilyPair : Type 0 where
  pub vid : ℕ
  pub pid : ℕ
  pub family : UsbFamily

abbrev pair : ℕ → ℕ → UsbFamily → FamilyPair
pair v p f = record { vid = v; pid = p; family = f }

abbrev pub family_pairs : List FamilyPair
family_pairs =
    pair 0x045e 0x02ea gip
    ∷ pair 0x045e 0x0b00 gip
    ∷ pair 0x0e6f 0x0165 gip
    ∷ pair 0x0f0d 0x0067 gip
    ∷ pair 0x24c6 0x541a gip
    ∷ pair 0x24c6 0x542a gip
    ∷ pair 0x24c6 0x543a gip
    ∷ pair 0x3537 0x1010 gip
    ∷ pair 0x054c 0x0268 ds3
    ∷ pair 0x057e 0x2009 nintendo
    ∷ pair 0x2dc8 0x310b nintendo
    ∷ pair 0x046d 0xc20e logitech
    ∷ pair 0x046d 0xc216 logitech
    ∷ pair 0x046d 0xc218 logitech
    ∷ pair 0x046d 0xc219 logitech
    ∷ pair 0x046d 0xc21f logitech
    ∷ []

unfoldable pub interface_is_gip : Option UsbInterface → Bool
interface_is_gip none = false
interface_is_gip (some i) =
    i.alternate_setting == 0
    && i.interface_class == 0xff
    && i.interface_subclass == 0x47
    && i.interface_protocol == 0xd0

unfoldable pub kind_agrees : UsbFamily → InterfaceKind → Bool
kind_agrees f iface_none = true
kind_agrees gip iface_gip = true
kind_agrees gip k = false
kind_agrees f iface_hid = true
kind_agrees f iface_hid_raw = true
kind_agrees f k = false

abbrev pub kind_of : Option UsbInterface → InterfaceKind
kind_of none = iface_none
kind_of (some i) = i.kind

unfoldable pub is_skipped : Option UsbInterface → Bool
unfolding skip
is_skipped none = false
is_skipped (some i) = skip 0 i.interface_class i.interface_subclass i.interface_protocol

unfoldable pub find_pair : List FamilyPair → ℕ → ℕ → Option UsbFamily
find_pair [] v p = none
find_pair (x ∷ xs) v p = if x.vid != v || x.pid != p then find_pair xs v p else some x.family

-- What the loop over the pairs returns.
unfoldable pub qualify : Option UsbFamily → Option UsbInterface → UsbFamily
qualify none i = unqualified
qualify (some f) i =
    if kind_agrees f (kind_of i) then if is_skipped i then unqualified else f else unqualified

unfoldable pub family : ℕ → ℕ → Option UsbInterface → UsbFamily
family v p i = if interface_is_gip i then gip else qualify (find_pair family_pairs v p) i

pub data RouteTarget : Type 0 where
  target_none target_xbox target_ds3 target_nintendo target_logitech : RouteTarget

pub data Refusal : Type 0 where
  route_disabled_template_empty route_has_no_entry : Refusal

-- The reason is one and the same text throughout, which the model leaves out.
pub record RoutePlan : Type 0 where
  pub routed : Bool
  pub family : UsbFamily
  pub target : RouteTarget
  pub refusal : Option Refusal

pub record RouteEntry : Type 0 where
  pub family : UsbFamily
  pub target : RouteTarget
  pub enabled : Bool

abbrev entry : UsbFamily → RouteTarget → RouteEntry
entry f t = record { family = f; target = t; enabled = false }

abbrev pub route_template : List RouteEntry
route_template =
    entry gip target_xbox
    ∷ entry ds3 target_ds3
    ∷ entry nintendo target_nintendo
    ∷ entry logitech target_logitech
    ∷ []

abbrev pub same_family : UsbFamily → UsbFamily → Bool
same_family unqualified unqualified = true
same_family gip gip = true
same_family ds3 ds3 = true
same_family nintendo nintendo = true
same_family logitech logitech = true
same_family family_count family_count = true
same_family _ _ = false

-- The Boolean is whether the call returns 0 rather than -1.
unfoldable pub route_in : List RouteEntry → UsbFamily → Bool × RoutePlan
route_in [] f = (
  false,
  record { routed = false; family = f; target = target_none; refusal = some route_has_no_entry },
)
route_in (e ∷ es) f =
    if same_family e.family f
    then if e.enabled
      then (true, record { routed = true; family = f; target = e.target; refusal = none })
      else (
        false,
        record {
          routed = false;
          family = f;
          target = target_none;
          refusal = some route_disabled_template_empty;
        },
      )
    else route_in es f

unfoldable pub route : UsbFamily → Bool × RoutePlan
route f = route_in route_template f

unfoldable pub enabled_count : List RouteEntry → ℕ
enabled_count [] = 0
enabled_count (e ∷ es) = if e.enabled then suc (enabled_count es) else enabled_count es
