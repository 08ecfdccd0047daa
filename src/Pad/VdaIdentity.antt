-- ===== src/Pad/VdaIdentity.antt =====
-- core/src/gc_vda_identity.c: which virtual devices may be asked for on which platform.
-- A value outside an enumeration, which C allows, is `other_platform` or `other_identity`.
pub mod Refusals
use ghostcontrol_ps5_usb_con.Base.{
  ℕ, Bool, true, false, ◌&&◌, ◌||◌, not, Option, none, some, if◌then◌else◌,
}
use ghostcontrol_ps5_usb_con.Base.{ℤ, pos, negsuc, eq_ℤ}

pub data Platform : Type 0 where
  platform_unknown platform_ps4 platform_ps5 other_platform : Platform

pub data Identity : Type 0 where
  identity_none dualsense ds4 psvr2_left psvr2_right identity_count other_identity : Identity

pub data IdentityRefusal : Type 0 where
  refused_ds4 no_evidence platform_not_implemented refused_platform : IdentityRefusal
  unknown_identity : IdentityRefusal

unfoldable pub identity_known : Identity → Bool
identity_known identity_none = false
identity_known identity_count = false
identity_known other_identity = false
identity_known _ = true

abbrev pub is_ps4 : Platform → Bool
is_ps4 platform_ps4 = true
is_ps4 _ = false

abbrev pub is_ps5 : Platform → Bool
is_ps5 platform_ps5 = true
is_ps5 _ = false

abbrev pub is_dualsense : Identity → Bool
is_dualsense dualsense = true
is_dualsense _ = false

unfoldable pub available : Platform → Identity → Bool
available p i = is_ps5 p && is_dualsense i

-- The `switch` on an identity, on a platform that is known.
unfoldable pub pair_refusal : Platform → Identity → Option IdentityRefusal
pair_refusal p dualsense = if is_ps5 p then none else some platform_not_implemented
pair_refusal p ds4 = if is_ps4 p then some refused_ds4 else some no_evidence
pair_refusal p psvr2_left = some no_evidence
pair_refusal p psvr2_right = some no_evidence
pair_refusal p _ = some unknown_identity

-- `none` is the null pointer: nothing is refused.
unfoldable pub refusal : Platform → Identity → Option IdentityRefusal
unfolding identity_known pair_refusal
refusal p i =
    if not (identity_known i)
    then some unknown_identity
    else if not (is_ps4 p) && not (is_ps5 p)
    then some refused_platform
    else pair_refusal p i

unfoldable pub from_preference : ℤ → Identity
from_preference p =
    if eq_ℤ p (pos 0)
    then dualsense
    else if eq_ℤ p (pos 1)
    then ds4
    else if eq_ℤ p (pos 2)
    then psvr2_left
    else if eq_ℤ p (pos 3)
    then psvr2_right
    else identity_none

unfoldable pub type_value : Platform → Identity → ℤ
unfolding available
type_value p i = if available p i then pos 3 else negsuc 0
