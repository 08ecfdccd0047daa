-- ===== src/Bt/Host/Acl/Reassembly.antt =====
-- A frame in pieces through `on_acl` of core/src/bt/host.c.
use ghostcontrol_ps5_usb_con.Base.{
  ◌≡◌, sym, ap, ap₂, subst, ◌∙◌, ℕ, ◌+◌, ◌-◌, ◌≤◌, ◌<◌, arith, List, [], ◌∷◌, ◌++◌, length, map,
  flatten, All, length-append, append_assoc, append-nil, take, take_self, get_or, get_or-append,
  Option, some,
}
use ghostcontrol_ps5_usb_con.Bt.Host.{le16, put16}
use ghostcontrol_ps5_usb_con.Bt.Host.Acl.{
  AclHost, Frame, rx_size, link_by_handle, frame_of, on_acl, continuation, beginning,
}
use ghostcontrol_ps5_usb_con.Bt.Host.Acl.Frames.{
  put_first, on_acls, packet, Receives, Goes, on_acl-continuation, on_acl-beginning,
  continuation-Goes, beginning-Goes,
}

abbrev NotEmpty : List ℕ → Type 0
NotEmpty p = 0 < length p

-- The frames of a packet and of those after it.
on_acls-first :
    (h : AclHost) (pkt : List ℕ) (pkts : List (List ℕ)) (r : AclHost × Option Frame)
    → on_acl h pkt ≡ r
    → (on_acls h (pkt ∷ pkts)).1 ≡ put_first r.1 (on_acls r.0 pkts).1
unfolding on_acls
on_acls-first h pkt pkts r e =
    ap (λ (q : AclHost × Option Frame). put_first q.1 (on_acls q.0 pkts).1) e

-- What goes on with the rest of the pieces.
module _ (i handle need : ℕ) (small : handle < 0x1000) (room : need ≤ rx_size) (p : 0 < need) where
  abbrev Delivers : AclHost → List ℕ → List (List ℕ) → Type 0
  Delivers h got ps =
      (on_acls h (map (packet handle 1) ps)).1 ≡ frame_of i need (got ++ flatten ps) ∷ []

  -- The last piece of a frame completes it.
  last_piece :
      (got : List ℕ) (r : AclHost × Option Frame)
      → Goes i handle need got r
      → need ≤ length got
      → put_first r.1 (on_acls r.0 []).1 ≡ frame_of i need got ∷ []
  unfolding on_acls
  last_piece got r g e = ap (λ f. put_first f []) (g.0 e)

  continuations :
      (h : AclHost) (got : List ℕ) (ps : List (List ℕ))
      → Receives h i handle need got
      → length got < need
      → All NotEmpty ps
      → length (got ++ flatten ps) ≡ need
      → Delivers h got ps
  continuations h got [] v part full size = absurd (omega (arith, ap length (append-nil got)))
  continuations h got (q ∷ []) v part full size =
      let shape : got ++ flatten (q ∷ []) ≡ got ++ q = ap (λ l. got ++ l) (append-nil q) in
      let whole : length (got ++ q) ≡ need = sym (ap length shape) ∙ size in
      let fits : length got + length q ≤ rx_size = omega (arith, whole, length-append got q) in
      on_acls-first h (packet handle 1 q) [] _
        (on_acl-continuation h i handle q small (omega arith) v.found)
      ∙ last_piece (got ++ q) _ (continuation-Goes h i handle need got q p fits v)
          (omega (arith, whole))
      ∙ ap (λ b. frame_of i need b ∷ []) (sym shape)
  continuations h got (q ∷ r ∷ ps) v part full size =
      let whole : length got + length q + length (flatten (r ∷ ps)) ≡ need = omega (
        arith,
        size,
        length-append got (q ++ flatten (r ∷ ps)),
        length-append q (flatten (r ∷ ps)),
      ) in
      let more : 0 < length (flatten (r ∷ ps)) =
        omega (arith, full.1.0, length-append r (flatten ps)) in
      let fits : length got + length q ≤ rx_size = omega arith in
      let next =
        (continuation-Goes h i handle need got q p fits v).1 (omega (arith, length-append got q)) in
      let shape : (got ++ q) ++ flatten (r ∷ ps) ≡ got ++ flatten (q ∷ r ∷ ps) =
        append_assoc got q (flatten (r ∷ ps)) in
      on_acls-first h (packet handle 1 q) (map (packet handle 1) (r ∷ ps)) _
        (on_acl-continuation h i handle q small (omega arith) v.found)
      ∙ ap (λ f. put_first f (on_acls (continuation h i q).0 (map (packet handle 1) (r ∷ ps))).1)
          next.0
      ∙ continuations (continuation h i q).0 (got ++ q) (r ∷ ps) next.1
          (omega (arith, length-append got q)) full.1 (ap length shape ∙ size)
      ∙ ap (λ b. frame_of i need b ∷ []) shape

  started :
      (h : AclHost) (q : List ℕ) (ps : List (List ℕ)) (r : AclHost × Option Frame)
      → on_acl h (packet handle 0 q) ≡ r
      → Goes i handle need q r
      → All NotEmpty ps
      → length (q ++ flatten ps) ≡ need
      → (on_acls h (packet handle 0 q ∷ map (packet handle 1) ps)).1
        ≡ frame_of i need (q ++ flatten ps) ∷ []
  started h q [] r first g full size =
      on_acls-first h (packet handle 0 q) [] r first
      ∙ last_piece q r g (omega (arith, size, ap length (append-nil q)))
      ∙ ap (λ b. frame_of i need b ∷ []) (sym (append-nil q))
  started h q (x ∷ ps) r first g full size =
      let less : length q < need =
        omega
          (arith, size, length-append q (x ++ flatten ps), length-append x (flatten ps), full.0) in
      on_acls-first h (packet handle 0 q) (map (packet handle 1) (x ∷ ps)) r first
      ∙ ap (λ f. put_first f (on_acls r.0 (map (packet handle 1) (x ∷ ps))).1) (g.1 less).0
      ∙ continuations r.0 q (x ∷ ps) (g.1 less).1 less full size

-- The bytes of a frame with its header.
abbrev frame_bytes : ℕ → List ℕ → List ℕ
frame_bytes cid d = put16 (length d) ++ put16 cid ++ d

frame_of-bytes :
    (i cid : ℕ) (d : List ℕ)
    → cid < 0x10000
    → frame_of i (4 + length d) (frame_bytes cid d) ≡ record { slot = i; cid = cid; bytes = d }
frame_of-bytes i cid d c =
    let same : le16 (frame_bytes cid d) 2 ≡ cid = omega arith in
    let size : 4 + length d - 4 ≡ length d = omega arith in
    let whole : take (4 + length d - 4) d ≡ d = take_self d (4 + length d - 4) (omega arith) in
    let make : ℕ → List ℕ → Frame = λ k b. record { slot = i; cid = k; bytes = b } in
    ap₂ make same whole

-- A frame of at most 1,020 bytes that comes in pieces, the first with the header of four bytes and
-- none of the later ones empty, on a link that the handle finds: whatever the link had before,
-- exactly one frame comes out, with the link, the channel and the bytes that were sent.
pub on_acls-reassembles :
    (h : AclHost) (i handle cid : ℕ) (d p : List ℕ) (ps : List (List ℕ))
    → handle < 0x1000
    → cid < 0x10000
    → 4 + length d ≤ rx_size
    → link_by_handle h handle ≡ some i
    → 4 ≤ length p
    → All NotEmpty ps
    → p ++ flatten ps ≡ frame_bytes cid d
    → (on_acls h (packet handle 0 p ∷ map (packet handle 1) ps)).1
      ≡ record { slot = i; cid = cid; bytes = d } ∷ []
on_acls-reassembles h i handle cid d p ps small c room found long full bytes =
    let fits : length p ≤ rx_size = omega (arith, ap length bytes, length-append p (flatten ps)) in
    let at = λ (k : ℕ) (lt : k < length p).
      sym (get_or-append p (flatten ps) k 0 lt) ∙ ap (λ w. get_or w k 0) bytes in
    let need : le16 p 0 ≡ length d = omega (arith, at 0 (omega arith), at 1 (omega arith)) in
    let from_start : Goes i handle (4 + length d) p (beginning h i p) =
      subst (λ n. Goes i handle (4 + n) p (beginning h i p)) need
        (beginning-Goes h i handle p long fits found) in
    started i handle (4 + length d) small room (omega arith) h p ps (beginning h i p)
      (on_acl-beginning h i handle p small fits found) from_start full
      (omega (arith, ap length bytes))
    ∙ ap (λ b. frame_of i (4 + length d) b ∷ []) bytes
    ∙ ap (λ f. f ∷ []) (frame_of-bytes i cid d c)
