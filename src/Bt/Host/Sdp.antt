-- ===== src/Bt/Host/Sdp.antt =====
-- core/src/bt/host.c, the SDP client: the data elements of an answer, the Device ID and the HID
-- descriptor in them, and the pieces of an answer.
-- An answer is the list of its bytes; a walk over it carries what is left of it.
use ghostcontrol_ps5_usb_con.Base.{
  ℕ, zero, suc, ◌+◌, ◌-◌, ◌*◌, ◌/◌, ◌%◌, ◌^◌, Bool, true, false, not, ◌&&◌, ◌||◌, Option, none,
  some, List, [], ◌∷◌, ◌++◌, length, get_or, take, drop, ltb, leb, ◌==◌, ◌!=◌, if◌then◌else◌,
}
pub mod DeviceId
pub mod Bounds

abbrev pub be16 : List ℕ → ℕ → ℕ
be16 p i = get_or p i 0 * 256 + get_or p (i + 1) 0

abbrev pub be32 : List ℕ → ℕ → ℕ
be32 p i = be16 p i * 65536 + be16 p (i + 2)

-- A data element: its type, the length of its content, and that of its header.
pub record Element : Type 0 where
  pub type : ℕ
  pub clen : ℕ
  pub header : ℕ

abbrev pub fitting : ℕ → ℕ → ℕ → ℕ → Option Element
fitting type clen header avail =
    if leb (header + clen) avail
    then some (record { type = type; clen = clen; header = header })
    else none

unfoldable pub de_header : List ℕ → Option Element
de_header [] = none
de_header (b ∷ p) =
    let type = b / 8 in
    let size = b % 8 in
    let avail = suc (length p) in
    if type == 0
    then some (record { type = 0; clen = 0; header = 1 })
    else if ltb size 5
    then fitting type (2 ^ size) 1 avail
    else if size == 5
    then if ltb avail 2 then none else fitting type (get_or p 0 0) 2 avail
    else if size == 6
    then if ltb avail 3 then none else fitting type (be16 p 0) 3 avail
    else if ltb avail 5
    then none
    else fitting type (be32 p 0) 5 avail

abbrev pub is_sequence : Element → Bool
is_sequence e = e.type == 6 || e.type == 7

-- What the next value is: the vendor, the product, or neither.
pub data Want : Type 0 where
  want_none want_vendor want_product : Want

pub record Ids : Type 0 where
  pub want : Want
  pub vid : Option ℕ
  pub pid : Option ℕ

abbrev pub no_ids : Ids
no_ids = record { want = want_none; vid = none; pid = none }

-- An unsigned value of two bytes.
unfoldable pub on_value : ℕ → Want → Ids → Ids
on_value v want_vendor ids = record ids { want = want_none; vid = some v }
on_value v want_product ids = record ids { want = want_none; pid = some v }
on_value v want_none ids = record ids {
  want = if v == 0x0201 then want_vendor else if v == 0x0202 then want_product else want_none;
}

abbrev pub is_value : Element → Bool
is_value e = e.type == 1 && e.clen == 2

unfoldable pub on_element : Element → List ℕ → Ids → Ids
unfolding on_value
on_element e p ids =
    if is_sequence e
    then ids
    else if is_value e
    then on_value (be16 p e.header) ids.want ids
    else record ids { want = want_none }

-- How far the walk goes: into a sequence, past anything else.
abbrev pub advance : Element → ℕ
advance e = if is_sequence e then e.header else e.header + e.clen

-- The ids and whether the walk came to the end of the bytes.
unfoldable pub find_loop : ℕ → List ℕ → Ids → Ids × Bool
find_loop zero p ids = (ids, leb (length p) 0)
find_loop (suc fuel) [] ids = (ids, true)
find_loop (suc fuel) (b ∷ p) ids = elim (de_header (b ∷ p)) [
  | none ↦ (ids, false)
  | some e ↦ find_loop fuel (drop (advance e) (b ∷ p)) (on_element e (b ∷ p) ids)
]

abbrev pub is_some : Option ℕ → Bool
is_some none = false
is_some (some v) = true

abbrev pub or_zero : Option ℕ → ℕ
or_zero none = 0
or_zero (some v) = v

-- Whether both are there, with the vendor and the product, which are 0 before.
unfoldable pub sdp_find_ids : List ℕ → Bool × ℕ × ℕ
unfolding find_loop
sdp_find_ids p =
    let (ids, at_end) = find_loop (length p) p no_ids in
    (at_end && is_some ids.vid && is_some ids.pid, or_zero ids.vid, or_zero ids.pid)

-- Where the descriptor starts, and its length. `i` is where `p` starts.
unfoldable pub descriptor_loop : ℕ → ℕ → List ℕ → Bool → Option (ℕ × ℕ)
descriptor_loop zero i p after_type = none
descriptor_loop (suc fuel) i [] after_type = none
descriptor_loop (suc fuel) i (b ∷ p) after_type = elim (de_header (b ∷ p)) [
  | none ↦ none
  | some e ↦
      let rest = drop (advance e) (b ∷ p) in
      let is_type = e.type == 1 && e.clen == 1 && get_or (b ∷ p) e.header 0 == 0x22 in
      let next =
        descriptor_loop fuel (i + advance e) rest (if is_sequence e then after_type else is_type) in
      if not (is_sequence e) && e.type == 4 && after_type then some (i + e.header, e.clen) else next
]

unfoldable pub sdp_find_descriptor : List ℕ → Option (ℕ × ℕ)
unfolding descriptor_loop
sdp_find_descriptor p = descriptor_loop (length p) 0 p false

abbrev pub sdp_buf_max : ℕ
sdp_buf_max = 1024

abbrev pub sdp_cont_max : ℕ
sdp_cont_max = 16

pub data Query : Type 0 where
  q_none q_ids q_desc : Query

pub record Sdp : Type 0 where
  pub query : Query
  pub sent : Bool
  pub tries : ℕ
  pub tid : ℕ
  pub t_sdp : ℕ
  pub cont : List ℕ
  pub buf : List ℕ

abbrev pub query_body : Query → List ℕ
query_body q_ids =
    0x35 ∷ 0x03 ∷ 0x19 ∷ 0x12 ∷ 0x00 ∷ 0x01 ∷ 0x00 ∷ 0x35 ∷ 0x05 ∷ 0x0A ∷ 0x02 ∷ 0x00 ∷ 0x02 ∷ 0x05
    ∷ []
query_body _ =
    0x35 ∷ 0x03 ∷ 0x19 ∷ 0x11 ∷ 0x24 ∷ 0x01 ∷ 0x00 ∷ 0x35 ∷ 0x03 ∷ 0x09 ∷ 0x02 ∷ 0x06 ∷ []

-- The query of a link whose memory is all 0.
abbrev pub no_sdp : Sdp
no_sdp = record { query = q_none; sent = false; tries = 0; tid = 0; t_sdp = 0; cont = []; buf = [] }

-- The request that goes to `l2_send`, and the query after it, at the time `now`. Where the transport
-- is not `kept` meanwhile, the link was cleared.
unfoldable pub sdp_send_request : ℕ → Bool → Sdp → Sdp × List ℕ
sdp_send_request now kept s =
    let tid = (s.tid + 1) % 0x10000 in
    let params = query_body s.query ++ length s.cont ∷ s.cont in
    let after = if kept then record s { tid = tid } else no_sdp in
    (
      record after { sent = true; tries = after.tries + 1; t_sdp = now },
      0x06 ∷ tid / 256 ∷ tid % 256 ∷ length params / 256 ∷ length params % 256 ∷ params,
    )

unfoldable pub sdp_start : Query → Sdp → Sdp
sdp_start q s = record s { query = q; sent = false; tries = 0; cont = []; buf = [] }

-- What becomes of an answer: nothing, a request for more, or the end of the query, `ok` or not.
pub data Step : Type 0 where
  ignored : Step
  asked : List ℕ → Step
  finished : Query → Bool → Step

-- `sdp_finish` takes it from here, with the query closed.
unfoldable pub finish : Bool → Sdp → Sdp × Step
finish ok s = (record s { query = q_none }, finished s.query ok)

abbrev pub is_asked : Query → Bool
is_asked q_none = false
is_asked _ = true

-- An answer of which `bytes` are attributes, with the length of what continues it after them.
unfoldable pub take_part : ℕ → Bool → ℕ → List ℕ → Sdp → Sdp × Step
unfolding finish sdp_send_request
take_part now kept bytes d s =
    let cl = get_or d (7 + bytes) 0 in
    let s' = record s { buf = s.buf ++ take bytes (drop 7 d) } in
    if ltb sdp_cont_max cl || ltb (length d) (8 + bytes + cl)
    then finish false s'
    else if cl == 0
    then finish true s'
    else let more =
        sdp_send_request now kept (record s' { cont = take cl (drop (8 + bytes) d); tries = 0 }) in
      (more.0, asked more.1)

unfoldable pub on_sdp : ℕ → Bool → List ℕ → Sdp → Sdp × Step
unfolding finish take_part
on_sdp now kept d s =
    if not (is_asked s.query) || not s.sent || ltb (length d) 5
    then (s, ignored)
    else if be16 d 1 != s.tid
    then (s, ignored)
    else if get_or d 0 0 != 0x07 || ltb (length d) 8
    then finish false s
    else let bytes = be16 d 5 in
      let whole = not (ltb (length d) (8 + bytes) || ltb sdp_buf_max (length s.buf + bytes)) in
      if whole then take_part now kept bytes d s else finish false s
