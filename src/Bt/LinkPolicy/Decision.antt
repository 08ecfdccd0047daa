-- ===== src/Bt/LinkPolicy/Decision.antt =====
-- What gc_bt_link_decide and gc_bt_link_role of core/src/bt/linkpolicy.c guarantee.
use ghostcontrol_ps5_usb_con.Base.{◌≡◌, ◌≢◌, ◌↔◌, ◌⊎◌, true, some, arith}
use ghostcontrol_ps5_usb_con.Bt.LinkPolicy.{
  take, manual, auto, audio, LinkRequest, link_role, link_decide,
}

-- A link is taken exactly when the user did not block the device, its class is an audio sink, and
-- it is the saved target or else was not blocked automatically while unattended audio is allowed.
pub link_decide-take_iff :
    (r : LinkRequest)
    → (link_decide (some r) ≡ take) ↔ (
        (r.block ≢ manual)
        × (link_role r.cod ≡ audio)
        × ((r.saved_target ≡ true) ⊎ ((r.block ≢ auto) × (r.auto_accept_audio ≡ true))))
unfolding link_decide link_role
link_decide-take_iff r = ground arith
