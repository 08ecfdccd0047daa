-- ===== src/Bt/Host/Acl.antt =====
-- core/src/bt/host.c, inbound data: `on_acl`, which puts the frames of a link together again.
-- `rx` holds the first `rx_len` bytes of the source's buffer; what stands behind them is never read.
-- A frame that is complete is the result, with the link it came on; `on_frame` gets it.
use ghostcontrol_ps5_usb_con.Base.{
  u32, ℕ, zero, suc, ◌+◌, ◌-◌, ◌*◌, ◌/◌, ◌%◌, Bool, true, false, not, ◌&&◌, ◌||◌, Option, none,
  some, List, [], ◌∷◌, ◌++◌, length, get_or, set, take, drop, ltb, leb, ◌==◌, ◌!=◌, if◌then◌else◌,
}
use ghostcontrol_ps5_usb_con.Bt.Host.{le16}
pub mod Frames
pub mod Reassembly

abbrev pub rx_size : ℕ
rx_size = 1024

pub record AclLink : Type 0 where
  pub used : Bool
  pub connected : Bool
  pub handle : ℕ
  pub rx : List ℕ
  pub rx_need : ℕ

abbrev pub free_link : AclLink
free_link = record { used = false; connected = false; handle = 0; rx = []; rx_need = 0 }

pub record AclHost : Type 0 where
  pub links : List AclLink
  pub acl_stale : ℕ
  pub acl_malformed : ℕ

pub record Frame : Type 0 where
  pub slot : ℕ
  pub cid : ℕ
  pub bytes : List ℕ

abbrev pub has_handle : ℕ → AclLink → Bool
has_handle handle l = l.used && l.connected && l.handle == handle % 0x1000

-- The index of the first link with the handle, counted from `i`.
unfoldable pub find_link : List AclLink → ℕ → ℕ → Option ℕ
find_link [] handle i = none
find_link (l ∷ ls) handle i = if has_handle handle l then some i else find_link ls handle (suc i)

unfoldable pub link_by_handle : AclHost → ℕ → Option ℕ
unfolding find_link
link_by_handle h handle = find_link h.links handle 0

abbrev pub link_at : AclHost → ℕ → AclLink
link_at h i = get_or h.links i free_link

abbrev pub with_link : AclHost → ℕ → AclLink → AclHost
with_link h i l = record h { links = set h.links i l }

abbrev pub malformed : AclHost → AclHost × Option Frame
malformed h = (record h { acl_malformed = u32 (h.acl_malformed + 1) }, none)

abbrev pub has_all : AclLink → Bool
has_all l = l.rx_need != 0 && leb l.rx_need (length l.rx)

-- The frame of `need` bytes with its header, from its first bytes.
abbrev pub frame_of : ℕ → ℕ → List ℕ → Frame
frame_of i need bytes = record {
  slot = i;
  cid = le16 bytes 2;
  bytes = take (need - 4) (drop 4 bytes);
}

-- When the buffer has all that the frame needs, the frame goes on.
unfoldable pub complete : AclHost → ℕ → AclHost × Option Frame
complete h i =
    let l = link_at h i in
    if has_all l
    then (with_link h i (record l { rx_need = 0 }), some (frame_of i l.rx_need l.rx))
    else (h, none)

unfoldable pub continuation : AclHost → ℕ → List ℕ → AclHost × Option Frame
unfolding complete
continuation h i piece =
    let l = link_at h i in
    if l.rx_need == 0 || ltb rx_size (length l.rx + length piece)
    then malformed (with_link h i (record l { rx_need = 0 }))
    else complete (with_link h i (record l { rx = l.rx ++ piece })) i

unfoldable pub beginning : AclHost → ℕ → List ℕ → AclHost × Option Frame
unfolding complete
beginning h i piece =
    if ltb (length piece) 4 || ltb rx_size (length piece)
    then malformed h
    else complete (with_link h i (record (link_at h i) { rx = piece; rx_need = 4 + le16 piece 0 }))
        i

-- A packet with a header, for the link of its handle.
unfoldable pub on_link : AclHost → ℕ → List ℕ → AclHost × Option Frame
unfolding continuation beginning
on_link h i pkt =
    let dlen = le16 pkt 2 in
    let piece = take dlen (drop 4 pkt) in
    if ltb (length pkt) (4 + dlen)
    then malformed h
    else if le16 pkt 0 / 0x1000 % 4 == 1
    then continuation h i piece
    else beginning h i piece

unfoldable pub on_acl : AclHost → List ℕ → AclHost × Option Frame
unfolding on_link link_by_handle
on_acl h pkt = if ltb (length pkt) 4 then malformed h else elim (link_by_handle h (le16 pkt 0)) [
  | none ↦ (record h { acl_stale = u32 (h.acl_stale + 1) }, none)
  | some i ↦ on_link h i pkt
]
