-- ===== src/Bt/Host/Acl/Frames.antt =====
-- What `on_acl` of core/src/bt/host.c makes of the pieces of a frame.
use ghostcontrol_ps5_usb_con.Base.{
  ◌≡◌, refl, sym, ap, ap₂, subst, ◌∙◌, ℕ, zero, suc, ◌+◌, ◌*◌, ◌%◌, ◌/◌, ◌≤◌, ◌<◌, arith, true,
  false, Option, none, some, List, [], ◌∷◌, ◌++◌, length, get_or, set, take, drop, if_true,
  if_false, ◌==◌, ◌||◌, ltb, take_self, get_or-set_self,
}
use ghostcontrol_ps5_usb_con.Bt.Host.{le16, put16}
use ghostcontrol_ps5_usb_con.Bt.Host.Acl.{
  AclLink, AclHost, Frame, rx_size, free_link, find_link, link_by_handle, link_at, with_link,
  frame_of, has_all, complete, continuation, beginning, on_link, on_acl,
}

abbrev pub put_first : Option Frame → List Frame → List Frame
put_first none frames = frames
put_first (some f) frames = f ∷ frames

-- The packets in order, with the frames that they complete.
unfoldable pub on_acls : AclHost → List (List ℕ) → AclHost × List Frame
on_acls h [] = (h, [])
on_acls h (pkt ∷ pkts) =
    let one = on_acl h pkt in let rest = on_acls one.0 pkts in (rest.0, put_first one.1 rest.1)

-- A piece of a frame as a packet: `flag` is 1 for a continuation.
abbrev pub packet : ℕ → ℕ → List ℕ → List ℕ
packet handle flag piece = put16 (handle + flag * 0x1000) ++ put16 (length piece) ++ piece

find_link-mod :
    (ls : List AclLink) (a b k : ℕ) → a % 0x1000 ≡ b % 0x1000 → find_link ls a k ≡ find_link ls b k
unfolding find_link
find_link-mod [] a b k h = refl
find_link-mod (l ∷ ls) a b k h = ground (arith, h, find_link-mod ls a b (suc k) h)

find_link-lt :
    (ls : List AclLink) (a k i : ℕ) → find_link ls a k ≡ some i → (k ≤ i) × (i < k + length ls)
unfolding find_link
find_link-lt [] a k i h = cc
find_link-lt (l ∷ ls) a k i h = ground (arith, h, find_link-lt ls a (suc k) i)

-- Links that are found by the same handles.
abbrev SameKey : AclLink → AclLink → Type 0
SameKey l m = (l.used ≡ m.used) × (l.connected ≡ m.connected) × (l.handle ≡ m.handle)

find_link-set :
    (ls : List AclLink) (i a k : ℕ) (l : AclLink)
    → SameKey l (get_or ls i free_link)
    → find_link (set ls i l) a k ≡ find_link ls a k
unfolding find_link
find_link-set [] i a k l h = refl
find_link-set (m ∷ ls) zero a k l h = ground (arith, h.0, h.1, h.2)
find_link-set (m ∷ ls) (suc i) a k l h = ground (arith, find_link-set ls i a (suc k) l h)

-- The link of the handle is at `i`: it has taken `got` of a frame that needs `need` bytes.
pub record Receives (h : AclHost) (i handle need : ℕ) (got : List ℕ) : Type 0 where
  pub found : link_by_handle h handle ≡ some i
  pub rx : (link_at h i).rx ≡ got
  pub rx_need : (link_at h i).rx_need ≡ need

link_at-with_link :
    (h : AclHost) (i handle : ℕ) (l : AclLink)
    → link_by_handle h handle ≡ some i
    → link_at (with_link h i l) i ≡ l
unfolding link_by_handle
link_at-with_link h i handle l f =
    get_or-set_self h.links i l free_link (omega (arith, find_link-lt h.links handle 0 i f))

with_link-Receives :
    (h : AclHost) (i handle : ℕ) (l : AclLink)
    → link_by_handle h handle ≡ some i
    → SameKey l (link_at h i)
    → Receives (with_link h i l) i handle l.rx_need l.rx
unfolding link_by_handle
with_link-Receives h i handle l f same =
    let e = link_at-with_link h i handle l f in
    record {
      found = find_link-set h.links i handle 0 l same ∙ f;
      rx = ap AclLink.rx e;
      rx_need = ap AclLink.rx_need e;
    }

on_acl-found :
    (h : AclHost) (i : ℕ) (pkt : List ℕ)
    → 4 ≤ length pkt
    → link_by_handle h (le16 pkt 0) ≡ some i
    → on_acl h pkt ≡ on_link h i pkt
unfolding on_acl
on_acl-found h i pkt size f = ground (arith, f)

on_link-continuation :
    (h : AclHost) (i : ℕ) (pkt : List ℕ)
    → 4 + le16 pkt 2 ≤ length pkt
    → le16 pkt 0 / 0x1000 % 4 ≡ 1
    → on_link h i pkt ≡ continuation h i (take (le16 pkt 2) (drop 4 pkt))
unfolding on_link
on_link-continuation h i pkt size flag = ground (arith, flag)

on_link-beginning :
    (h : AclHost) (i : ℕ) (pkt : List ℕ)
    → 4 + le16 pkt 2 ≤ length pkt
    → le16 pkt 0 / 0x1000 % 4 ≡ 0
    → on_link h i pkt ≡ beginning h i (take (le16 pkt 2) (drop 4 pkt))
unfolding on_link
on_link-beginning h i pkt size flag = ground (arith, flag)

module _ (h : AclHost) (i handle : ℕ) (piece : List ℕ) (small : handle < 0x1000)
    (fits : length piece ≤ rx_size) (found : link_by_handle h handle ≡ some i) where
  packet-found :
      (flag : ℕ)
      → flag ≤ 1
      → on_acl h (packet handle flag piece) ≡ on_link h i (packet handle flag piece)
  unfolding link_by_handle
  packet-found flag le =
      on_acl-found h i (packet handle flag piece) (omega arith)
        (find_link-mod h.links (le16 (packet handle flag piece) 0) handle 0 (omega arith) ∙ found)

  packet-length : (flag : ℕ) → le16 (packet handle flag piece) 2 ≡ length piece
  packet-length flag = omega arith

  packet-piece :
      (flag : ℕ)
      → take (le16 (packet handle flag piece) 2) (drop 4 (packet handle flag piece)) ≡ piece
  packet-piece flag =
      take_self piece (le16 (packet handle flag piece) 2) (omega (arith, packet-length flag))

  pub on_acl-continuation : on_acl h (packet handle 1 piece) ≡ continuation h i piece
  on_acl-continuation =
      packet-found 1 (omega arith)
      ∙ on_link-continuation h i (packet handle 1 piece) (omega (arith, packet-length 1))
          (omega arith)
      ∙ ap (continuation h i) (packet-piece 1)

  pub on_acl-beginning : on_acl h (packet handle 0 piece) ≡ beginning h i piece
  on_acl-beginning =
      packet-found 0 (omega arith)
      ∙ on_link-beginning h i (packet handle 0 piece) (omega (arith, packet-length 0)) (omega arith)
      ∙ ap (beginning h i) (packet-piece 0)

-- A link that has part of its frame goes on to the next piece, or has all of it.
abbrev pub Goes : ℕ → ℕ → ℕ → List ℕ → AclHost × Option Frame → Type 0
Goes i handle need got r =
    (need ≤ length got → r.1 ≡ some (frame_of i need got))
    × (length got < need → (r.1 ≡ none) × Receives r.0 i handle need got)

complete-Goes :
    (h : AclHost) (i handle need : ℕ) (got : List ℕ)
    → 0 < need
    → Receives h i handle need got
    → Goes i handle need got (complete h i)
unfolding complete
complete-Goes h i handle need got p v = (
  λ e.
      let all : has_all (link_at h i) ≡ true = ground (arith, ap length v.rx, v.rx_need, e, p) in
      ap (λ (r : AclHost × Option Frame). r.1) (if_true _ _ all)
      ∙ ap₂ (λ n b. some (frame_of i n b)) v.rx_need v.rx,
  λ e.
      let part : has_all (link_at h i) ≡ false = ground (arith, ap length v.rx, v.rx_need, e) in
      let same : complete h i ≡ (h, none) = if_false _ _ part in
      (
        ap (λ (r : AclHost × Option Frame). r.1) same,
        subst (λ r. Receives r.0 i handle need got) (sym same) v,
      ),
)

pub continuation-Goes :
    (h : AclHost) (i handle need : ℕ) (got piece : List ℕ)
    → 0 < need
    → length got + length piece ≤ rx_size
    → Receives h i handle need got
    → Goes i handle need (got ++ piece) (continuation h i piece)
unfolding continuation
continuation-Goes h i handle need got piece p fits v =
    let l : AclLink = record (link_at h i) { rx = (link_at h i).rx ++ piece } in
    let h' : AclHost = with_link h i l in
    let more = with_link-Receives h i handle l v.found (refl, refl, refl) in
    let open_frame : ((link_at h i).rx_need == 0
          || ltb rx_size (length (link_at h i).rx + length piece))
        ≡ false =
      ground (arith, ap length v.rx, v.rx_need, fits, p) in
    subst (Goes i handle need (got ++ piece)) (sym (if_false _ _ open_frame)) (
      complete-Goes h' i handle need (got ++ piece) p (
        subst (λ n. Receives h' i handle n (got ++ piece)) v.rx_need
          (subst (λ g. Receives h' i handle (link_at h i).rx_need (g ++ piece)) v.rx more)))

pub beginning-Goes :
    (h : AclHost) (i handle : ℕ) (piece : List ℕ)
    → 4 ≤ length piece
    → length piece ≤ rx_size
    → link_by_handle h handle ≡ some i
    → Goes i handle (4 + le16 piece 0) piece (beginning h i piece)
unfolding beginning
beginning-Goes h i handle piece long fits found =
    let usable : (ltb (length piece) 4 || ltb rx_size (length piece)) ≡ false =
      ground (arith, long, fits) in
    subst (Goes i handle (4 + le16 piece 0) piece) (sym (if_false _ _ usable)) (
      complete-Goes _ i handle (4 + le16 piece 0) piece (omega arith) (
        with_link-Receives h i handle
          (record (link_at h i) { rx = piece; rx_need = 4 + le16 piece 0 }) found
          (refl, refl, refl)))
