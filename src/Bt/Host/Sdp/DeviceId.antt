-- ===== src/Bt/Host/Sdp/DeviceId.antt =====
-- The Device ID record of a pad through `sdp_find_ids` of core/src/bt/host.c.
use ghostcontrol_ps5_usb_con.Base.{
  ◌≡◌, refl, ap, ◌∙◌, ℕ, suc, ◌+◌, ◌*◌, ◌/◌, ◌%◌, ◌≤◌, arith, Bool, true, false, List, [], ◌∷◌,
  length, drop, Option, none, some, ◌&&◌, ◌||◌, ◌==◌,
}
use ghostcontrol_ps5_usb_con.Bt.Host.Sdp.{
  Element, Ids, want_none, no_ids, de_header, on_value, on_element, find_loop, sdp_find_ids,
  advance, is_some, or_zero,
}

-- A value of two bytes, with its header.
abbrev pub value : ℕ → List ℕ → List ℕ
value v rest = 0x09 ∷ v / 256 ∷ v % 256 ∷ rest

de_header-value :
    (v : ℕ) (rest : List ℕ)
    → de_header (value v rest) ≡ some (record { type = 1; clen = 2; header = 1 })
unfolding de_header
de_header-value v rest = ground arith

find_loop-step :
    (fuel b : ℕ) (p : List ℕ) (ids : Ids) (e : Element)
    → de_header (b ∷ p) ≡ some e
    → find_loop (suc fuel) (b ∷ p) ids
      ≡ find_loop fuel (drop (advance e) (b ∷ p)) (on_element e (b ∷ p) ids)
unfolding find_loop
find_loop-step fuel b p ids e h =
    ap
      (λ (o : Option Element). elim o as (λ _. Ids × Bool) [
        | none ↦ (ids, false)
        | some x ↦ find_loop fuel (drop (advance x) (b ∷ p)) (on_element x (b ∷ p) ids)
      ])
      h

-- A value is read, and the walk goes on behind it.
find_loop-value :
    (fuel v : ℕ) (rest : List ℕ) (ids : Ids)
    → find_loop (suc fuel) (value v rest) ids ≡ find_loop fuel rest (on_value v ids.want ids)
unfolding on_element
find_loop-value fuel v rest ids =
    let read : v / 256 * 256 + v % 256 ≡ v = omega arith in
    find_loop-step fuel 0x09 (v / 256 ∷ v % 256 ∷ rest) ids _ (de_header-value v rest)
    ∙ ap (λ (x : ℕ). find_loop fuel rest (on_value x ids.want ids)) read

-- The walk steps into a sequence.
find_loop-sequence :
    (fuel n : ℕ) (rest : List ℕ) (ids : Ids)
    → n ≤ length rest
    → find_loop (suc fuel) (0x35 ∷ n ∷ rest) ids ≡ find_loop fuel rest ids
unfolding on_element de_header
find_loop-sequence fuel n rest ids h =
    find_loop-step fuel 0x35 (n ∷ rest) ids (record { type = 6; clen = n; header = 2 })
      (ground (arith, h))

-- A value that names neither the vendor nor the product.
abbrev pub IsPlain : ℕ → Type 0
IsPlain v = (v == 0x0201 || v == 0x0202) ≡ false

abbrev ids_of : Option ℕ → Option ℕ → Ids
ids_of vid pid = record { want = want_none; vid = vid; pid = pid }

on_value-plain :
    (v : ℕ) (vid pid : Option ℕ)
    → IsPlain v
    → on_value v want_none (ids_of vid pid) ≡ ids_of vid pid
unfolding on_value
on_value-plain v vid pid h = ground (arith, h)

-- A Boolean is stepped over.
abbrev pub mark : ℕ → List ℕ → List ℕ
mark b rest = 0x28 ∷ b ∷ rest

find_loop-mark :
    (fuel b : ℕ) (rest : List ℕ) (vid pid : Option ℕ)
    → find_loop (suc fuel) (mark b rest) (ids_of vid pid) ≡ find_loop fuel rest (ids_of vid pid)
unfolding on_element de_header
find_loop-mark fuel b rest vid pid =
    find_loop-step fuel 0x28 (b ∷ rest) (ids_of vid pid) (record { type = 5; clen = 1; header = 1 })
      (ground arith)

-- Attributes that are neither.
find_loop-plain :
    (fuel v : ℕ) (rest : List ℕ) (vid pid : Option ℕ)
    → IsPlain v
    → find_loop (suc fuel) (value v rest) (ids_of vid pid) ≡ find_loop fuel rest (ids_of vid pid)
find_loop-plain fuel v rest vid pid h =
    find_loop-value fuel v rest (ids_of vid pid)
    ∙ ap (find_loop fuel rest) (on_value-plain v vid pid h)

find_loop-vendor :
    (fuel v : ℕ) (rest : List ℕ) (vid pid : Option ℕ)
    → find_loop (suc (suc fuel)) (value 0x0201 (value v rest)) (ids_of vid pid)
      ≡ find_loop fuel rest (ids_of (some v) pid)
unfolding on_value
find_loop-vendor fuel v rest vid pid =
    find_loop-value (suc fuel) 0x0201 (value v rest) (ids_of vid pid)
    ∙ find_loop-value fuel v rest _

find_loop-product :
    (fuel v : ℕ) (rest : List ℕ) (vid pid : Option ℕ)
    → find_loop (suc (suc fuel)) (value 0x0202 (value v rest)) (ids_of vid pid)
      ≡ find_loop fuel rest (ids_of vid (some v))
unfolding on_value
find_loop-product fuel v rest vid pid =
    find_loop-value (suc fuel) 0x0202 (value v rest) (ids_of vid pid)
    ∙ find_loop-value fuel v rest _

-- The attributes that come after the version, after the product, and from the vendor on.
abbrev last_two : ℕ → ℕ → List ℕ
last_two primary source = value 0x0204 (mark primary (value 0x0205 (value source [])))

abbrev after_product : ℕ → ℕ → ℕ → List ℕ
after_product version primary source = value 0x0203 (value version (last_two primary source))

abbrev from_vendor : ℕ → ℕ → List ℕ → List ℕ
from_vendor vid pid rest = value 0x0201 (value vid (value 0x0202 (value pid rest)))

-- One list of attributes in the sequence of such lists.
abbrev in_lists : ℕ → List ℕ → List ℕ
in_lists spec rest = 0x35 ∷ 37 ∷ 0x35 ∷ 35 ∷ value 0x0200 (value spec rest)

-- The six attributes that the request asks for, in ascending order, each with its value: the numbers
-- of two bytes, the mark of the primary record a Boolean.
abbrev pub record_of : ℕ → ℕ → ℕ → ℕ → ℕ → ℕ → List ℕ
record_of spec vid pid version primary source =
    in_lists spec (from_vendor vid pid (after_product version primary source))

-- Up to the product every record is read alike.
find_loop-head :
    (spec vid pid : ℕ) (rest : List ℕ)
    → IsPlain spec
    → length rest ≡ 17
    → find_loop 39 (in_lists spec (from_vendor vid pid rest)) no_ids
      ≡ find_loop 31 rest (ids_of (some vid) (some pid))
find_loop-head spec vid pid rest h size =
    let more = from_vendor vid pid rest in
    let attributes = value 0x0200 (value spec more) in
    find_loop-sequence 38 37 (0x35 ∷ 35 ∷ attributes) no_ids (omega (arith, size))
    ∙ find_loop-sequence 37 35 attributes no_ids (omega (arith, size))
    ∙ find_loop-plain 36 0x0200 (value spec more) none none refl
    ∙ find_loop-plain 35 spec more none none h
    ∙ find_loop-vendor 33 vid (value 0x0202 (value pid rest)) none none
    ∙ find_loop-product 31 pid rest (some vid) none

-- From the mark on.
find_loop-mark_on :
    (primary source : ℕ) (vid pid : Option ℕ)
    → IsPlain source
    → find_loop 28 (mark primary (value 0x0205 (value source []))) (ids_of vid pid)
      ≡ (ids_of vid pid, true)
unfolding find_loop
find_loop-mark_on primary source vid pid ho =
    find_loop-mark 27 primary (value 0x0205 (value source [])) vid pid
    ∙ find_loop-plain 26 0x0205 (value source []) vid pid refl
    ∙ find_loop-plain 25 source [] vid pid ho

-- What the walk finds decides the answer.
abbrev answer : Ids × Bool → Bool × ℕ × ℕ
answer r = (r.1 && is_some r.0.vid && is_some r.0.pid, or_zero r.0.vid, or_zero r.0.pid)

-- The vendor and the product of a record are found, whatever they are, if neither the number of the
-- specification, nor the version, nor the source of the vendor's number is 0x0201 or 0x0202. The
-- record is one list of the six attributes in a sequence of lists, its numbers of two bytes and its
-- primary mark a Boolean.
pub sdp_find_ids-record_of :
    (spec vid pid version primary source : ℕ)
    → IsPlain spec
    → IsPlain version
    → IsPlain source
    → sdp_find_ids (record_of spec vid pid version primary source) ≡ (true, vid, pid)
unfolding sdp_find_ids
sdp_find_ids-record_of spec vid pid version primary source hs hv ho =
    let rest = last_two primary source in
    ap answer (
      find_loop-head spec vid pid (after_product version primary source) hs refl
      ∙ find_loop-plain 30 0x0203 (value version rest) (some vid) (some pid) refl
      ∙ find_loop-plain 29 version rest (some vid) (some pid) hv
      ∙ find_loop-plain 28 0x0204 (mark primary (value 0x0205 (value source []))) (some vid)
          (some pid) refl
      ∙ find_loop-mark_on primary source (some vid) (some pid) ho)

-- A version of 0x0201 reads like the id of the vendor: the id of the attribute behind it is taken
-- for the vendor. A version of 0x0202 reads like the id of the product.
find_loop-misread :
    (primary source vid pid : ℕ)
    → IsPlain source
    → (find_loop 31 (after_product 0x0201 primary source) (ids_of (some vid) (some pid))
        ≡ (ids_of (some 0x0204) (some pid), true))
      × (find_loop 31 (after_product 0x0202 primary source) (ids_of (some vid) (some pid))
          ≡ (ids_of (some vid) (some 0x0204), true))
find_loop-misread primary source vid pid ho =
    let rest = mark primary (value 0x0205 (value source [])) in
    (
      find_loop-plain 30 0x0203 (value 0x0201 (value 0x0204 rest)) (some vid) (some pid) refl
          ∙ find_loop-vendor 28 0x0204 rest (some vid) (some pid)
          ∙ find_loop-mark_on primary source (some 0x0204) (some pid) ho,
      find_loop-plain 30 0x0203 (value 0x0202 (value 0x0204 rest)) (some vid) (some pid) refl
          ∙ find_loop-product 28 0x0204 rest (some vid) (some pid)
          ∙ find_loop-mark_on primary source (some vid) (some 0x0204) ho,
    )

-- In a record with version 0x0201 the vendor is taken for 0x0204, the id of the attribute that
-- follows, and in one with version 0x0202 the product is, whatever vendor and product the record
-- names, if neither the number of the specification nor the source of the vendor's number is 0x0201
-- or 0x0202. The record is one list of the six attributes in a sequence of lists, its numbers of two
-- bytes and its primary mark a Boolean.
pub sdp_find_ids-version_misread :
    (spec vid pid primary source : ℕ)
    → IsPlain spec
    → IsPlain source
    → (sdp_find_ids (record_of spec vid pid 0x0201 primary source) ≡ (true, 0x0204, pid))
      × (sdp_find_ids (record_of spec vid pid 0x0202 primary source) ≡ (true, vid, 0x0204))
unfolding sdp_find_ids
sdp_find_ids-version_misread spec vid pid primary source hs ho =
    let misread = find_loop-misread primary source vid pid ho in
    (
      ap answer
          (find_loop-head spec vid pid (after_product 0x0201 primary source) hs refl ∙ misread.0),
      ap answer
          (find_loop-head spec vid pid (after_product 0x0202 primary source) hs refl ∙ misread.1),
    )
