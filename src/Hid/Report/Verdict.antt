-- ===== src/Hid/Report/Verdict.antt =====
-- Which reports gc_hid_input of core/src/gc_hid.c accepts.
use ghostcontrol_ps5_usb_con.Base.{
  ◌≡◌, ◌≢◌, ◌↔◌, ◌⊎◌, All, refl, sym, subst, ap, ◌∙◌, ℕ, ◌+◌, ◌*◌, ◌^◌, ◌≤◌, ◌<◌, arith, Bool, true,
  false, not, ◌&&◌, ◌||◌, List, [], ◌∷◌, length, ltb, leb, ◌==◌, if◌then◌else◌, if-elim,
  bit_and-ones, Bool-cases, inl, inr,
}
use ghostcontrol_ps5_usb_con.Controllers.PadData.{PadData}
use ghostcontrol_ps5_usb_con.Hid.Layout.{HidField, HidLayout, max_fields}
use ghostcontrol_ps5_usb_con.Hid.Pad.{release}
use ghostcontrol_ps5_usb_con.Hid.Input.{
  report_id, report_body, is_short, any_short, Survey, survey_field, survey, clear_buttons,
  fields_input,
}
use ghostcontrol_ps5_usb_con.Hid.Report.{
  any_in_report, surveyed, semantic_input, hid_input, left_fallback, right_fallback,
}

survey-elsewhere :
    (id : ℕ) (s : Survey) (fs : List HidField) → any_in_report id fs ≡ false → survey id s fs ≡ s
unfolding survey survey_field
survey-elsewhere id s [] h = refl
survey-elsewhere id s (f ∷ fs) h =
    if-elim (λ s'. survey id s' fs ≡ s) (not (f.report == id)) s _
      (λ other. survey-elsewhere id s fs (ground (arith, h)))
      (λ here. absurd (ground (arith, h, here)))

fields_input-elsewhere :
    (l : HidLayout) (s : Survey) (id : ℕ) (body : List ℕ) (fs : List HidField) (pad : PadData)
    → any_in_report id fs ≡ false
    → fields_input l s id body fs pad ≡ pad
unfolding fields_input
fields_input-elsewhere l s id body [] pad h = refl
fields_input-elsewhere l s id body (f ∷ fs) pad h =
    if-elim (λ p. fields_input l s id body fs p ≡ pad) (f.report == id) _ pad
      (λ here. absurd (ground (arith, h, here)))
      (λ other. fields_input-elsewhere l s id body fs pad (ground (arith, h)))

release-none : (pad : PadData) → pad.buttons < 2 ^ 32 → release 0 pad ≡ pad
release-none pad h =
    ap (λ b. record pad { buttons = b }) (bit_and-ones 32 pad.buttons (omega arith))

-- The report is not empty, none of its fields is cut short, and it has one.
abbrev pub accepted : HidLayout → List ℕ → Bool
accepted l report =
    let id = report_id l report in
    not (length report == 0)
    && leb (length l.fields) 96
    && not (any_short id (length (report_body l report)) l.fields)
    && any_in_report id l.fields

-- A field of 1 to 32 bits that belongs to another report, or ends within the `size` bytes.
abbrev pub IsWhole : ℕ → ℕ → HidField → Type 0
IsWhole id size f =
    (1 ≤ f.bits) × (f.bits ≤ 32) × ((f.report ≢ id) ⊎ (f.offset + f.bits ≤ 8 * size))

-- One of the fields belongs to the report.
abbrev pub Has : ℕ → List HidField → Type 0
Has id [] = ⊥
Has id (f ∷ fs) = (f.report ≡ id) ⊎ Has id fs

-- A report that can be read by the layout.
pub record IsReadable (l : HidLayout) (report : List ℕ) : Type 0 where
  pub some_byte : 1 ≤ length report
  pub few : length l.fields ≤ 96
  pub whole : All (IsWhole (report_id l report) (length (report_body l report))) l.fields
  pub has : Has (report_id l report) l.fields

is_short-IsWhole : (id size : ℕ) (f : HidField) → (is_short id size f ≡ false) ↔ IsWhole id size f
is_short-IsWhole id size f = ground arith

any_short-IsWhole :
    (id size : ℕ) (fs : List HidField) → (any_short id size fs ≡ false) ↔ All (IsWhole id size) fs
any_short-IsWhole id size [] = (λ e. tt, λ h. refl)
any_short-IsWhole id size (f ∷ fs) =
    let one = is_short-IsWhole id size f in
    let more = any_short-IsWhole id size fs in
    (
      λ e. (one.0 (ground (arith, e)), more.0 (ground (arith, e))),
      λ h. ground (arith, one.1 h.0, more.1 h.1),
    )

any_in_report-Has : (id : ℕ) (fs : List HidField) → (any_in_report id fs ≡ true) ↔ Has id fs
any_in_report-Has id [] = (λ e. absurd (ground (arith, e)), λ h. absurd h)
any_in_report-Has id (f ∷ fs) = let more = any_in_report-Has id fs in ground (arith, more)

accepted-IsReadable :
    (l : HidLayout) (report : List ℕ) → (accepted l report ≡ true) ↔ IsReadable l report
accepted-IsReadable l report =
    let id = report_id l report in
    let size = length (report_body l report) in
    let short = any_short-IsWhole id size l.fields in
    let here = any_in_report-Has id l.fields in
    (
      λ e. record {
        some_byte = ground (arith, e);
        few = ground (arith, e);
        whole = short.0 (ground (arith, e));
        has = here.0 (ground (arith, e));
      },
      λ r. ground (arith, r.some_byte, r.few, short.1 r.whole, here.1 r.has),
    )

-- A verdict and the pad that belongs to it.
abbrev pub verdict : Bool → PadData → PadData → Bool × PadData
verdict ok written pad = (ok, if ok then written else pad)

semantic_input-verdict :
    (l : HidLayout) (id : ℕ) (body : List ℕ) (pad : PadData)
    → pad.buttons < 2 ^ 32
    → semantic_input l id body pad
      ≡ verdict (any_in_report id l.fields) (semantic_input l id body pad).1 pad
unfolding semantic_input
semantic_input-verdict l id body pad small =
    let s = surveyed l id in
    let w = fields_input l s id body l.fields (clear_buttons s pad) in
    let done = right_fallback l (left_fallback l w) in
    let outcome : Bool → Bool × PadData = λ b. if b then (true, done) else (false, w) in
    elim (Bool-cases (any_in_report id l.fields)) [
      | inl here ↦ subst (λ b. outcome b ≡ verdict b (outcome b).1 pad) (sym here) refl
      | inr elsewhere ↦
          let none_set =
            ap (λ s. clear_buttons s pad)
              (survey-elsewhere id (record { array_mask = 0; has_hat = false; dpad_fields = 0 })
                l.fields elsewhere)
            ∙ release-none pad small in
          subst (λ b. outcome b ≡ verdict b (outcome b).1 pad) (sym elsewhere)
            (ap (λ p. (false, p))
              (fields_input-elsewhere l s id body l.fields (clear_buttons s pad) elsewhere
                ∙ none_set))
    ]

hid_input_lem :
    (l : HidLayout) (report : List ℕ) (pad : PadData)
    → 1 ≤ length l.fields
    → pad.buttons < 2 ^ 32
    → hid_input l report pad
      ≡ verdict
          (accepted l report)
          (semantic_input l (report_id l report) (report_body l report) pad).1
          pad
unfolding hid_input
hid_input_lem l report pad some_field small =
    let id = report_id l report in
    let body = report_body l report in
    let written = (semantic_input l id body pad).1 in
    let P : Bool × PadData → Type 0 = λ r. r ≡ verdict (accepted l report) written pad in
    let refused : accepted l report ≡ false → P (false, pad) =
      λ e. subst (λ b. (false, pad) ≡ verdict b written pad) (sym e) refl in
    if-elim P (length report == 0 || ltb max_fields (length l.fields)) _ _
      (λ empty. refused (ground (arith, empty)))
      (λ ok.
        if-elim P (length l.fields == 0) _ _ (λ empty. absurd (ground (arith, empty, some_field)))
          (λ full.
            if-elim P (any_short id (length body) l.fields) _ _
              (λ short. refused (ground (arith, short)))
              (λ all.
                subst (λ b. semantic_input l id body pad ≡ verdict b written pad)
                  (ground (arith, ok, all)) (semantic_input-verdict l id body pad small))))

-- For a layout with a standard usage and a pad of 32 buttons: a report that is accepted gives the pad
-- of the passes over its fields, one that is not leaves the pad as it was. It is accepted exactly when
-- it is not empty, the layout has at most 96 fields, each of 1 to 32 bits, every field of the report
-- lies within the report's bytes, and the report has a field.
pub hid_input-verdict :
    (l : HidLayout) (report : List ℕ) (pad : PadData)
    → 1 ≤ length l.fields
    → pad.buttons < 2 ^ 32
    → (hid_input l report pad
        ≡ verdict
            (accepted l report)
            (semantic_input l (report_id l report) (report_body l report) pad).1
            pad)
      × ((accepted l report ≡ true) ↔ IsReadable l report)
hid_input-verdict l report pad some_field small =
    (hid_input_lem l report pad some_field small, accepted-IsReadable l report)
