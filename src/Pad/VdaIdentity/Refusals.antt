-- ===== src/Pad/VdaIdentity/Refusals.antt =====
-- The refusals of core/src/gc_vda_identity.c against what it makes available.
use ghostcontrol_ps5_usb_con.Base.{◌≡◌, ◌≢◌, ◌↔◌, true, none, arith}
use ghostcontrol_ps5_usb_con.Base.{pos, negsuc}
use ghostcontrol_ps5_usb_con.Pad.VdaIdentity.{
  Platform, Identity, identity_known, available, pair_refusal, refusal, type_value,
}

-- On every platform and for every identity, out-of-range values included, a pair is available
-- exactly if there is no reason to refuse it, and exactly then it has a type to pass, which is 3.
pub refusal_iff :
    (p : Platform) (i : Identity)
    → ((available p i ≡ true) ↔ (refusal p i ≡ none))
      × ((type_value p i ≡ pos 3) ↔ (refusal p i ≡ none))
      × ((type_value p i ≡ negsuc 0) ↔ (refusal p i ≢ none))
unfolding available refusal identity_known pair_refusal type_value
refusal_iff p i = ground arith
