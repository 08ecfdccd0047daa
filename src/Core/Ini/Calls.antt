-- ===== src/Core/Ini/Calls.antt =====
-- What the callback of core/src/gc_ini.c gets, and that every text is read to an end.
use ghostcontrol_ps5_usb_con.Base.{
  ℕ, zero, suc, ◌+◌, ◌≤◌, ◌<◌, ◌≡◌, refl, ap, inl, inr, Bool, Bool-cases, ◌==◌, ◌!=◌, ◌||◌, leb,
  Option, none, some, List, [], ◌∷◌, length, All, arith,
}
use ghostcontrol_ps5_usb_con.Core.Ini.{
  Entry, State, IniError, c_string, trim, max_section, split_at, read_line, with_byte, max_line,
  enter_section, enter_setting, on_line, proceed, on_section, on_setting, on_cursor, parse_lines,
  ini_parse, start,
}

abbrev pub Fine : Entry → Type 0
Fine e = (0 < length e.key) × (length e.section < 96)

module _ {W : Type 0} (on_entry : W → Entry → Bool × W) where
  abbrev Sound : State W → Type 0
  Sound s = All Fine s.calls × (length s.section < 96)

  section_Sound :
      (s : State W) (o : Option (List ℕ × List ℕ)) → Sound s → Sound (enter_section on_entry s o).1
  unfolding enter_section
  section_Sound s none v = v
  section_Sound s (some (before, after)) v = elim (Bool-cases (length (trim after) != 0)) [
    | inl a ↦ rw a v
    | inr a ↦
        elim (Bool-cases (length (trim before) == 0 || leb max_section (length (trim before)))) [
          | inl b ↦ rw (a, b) v
          | inr b ↦ rw (a, b) (v.0, ground arith)
        ]
  ]

  setting_Sound :
      (s : State W) (o : Option (List ℕ × List ℕ)) → Sound s → Sound (enter_setting on_entry s o).1
  unfolding enter_setting
  setting_Sound s none v = v
  setting_Sound s (some (before, after)) v = elim (Bool-cases (length (trim before) == 0)) [
    | inl a ↦ rw a v
    | inr a ↦ rw a (((ground arith, v.1), v.0), v.1)
  ]

  cursor_Sound : (s : State W) (cursor : List ℕ) → Sound s → Sound (on_cursor on_entry s cursor).1
  unfolding on_cursor on_section on_setting
  cursor_Sound s [] v = v
  cursor_Sound s (c ∷ cs) v = elim (Bool-cases (c == 35 || c == 59)) [
    | inl a ↦ rw a v
    | inr a ↦ elim (Bool-cases (c == 91)) [
      | inl b ↦ rw (a, b) (section_Sound s (split_at 93 cs) v)
      | inr b ↦ rw (a, b) (setting_Sound s (split_at 61 (c ∷ cs)) v)
    ]
  ]

  line_Sound :
      (s : State W) (o : Option (List ℕ × List ℕ)) → Sound s → Sound (on_line on_entry s o).1
  unfolding on_line
  line_Sound s none v = v
  line_Sound s (some (line, rest)) v = cursor_Sound s (trim (c_string line)) v

  proceed-Sound :
      (o : Option IniError) (s : State W) (more : Option IniError × State W)
      → Sound s
      → Sound more.1
      → Sound (proceed on_entry o s more).1
  unfolding proceed
  proceed-Sound none s more v w = w
  proceed-Sound (some e) s more v w = v

  lines_Sound :
      (n : ℕ) (s : State W) (text : List ℕ) → Sound s → Sound (parse_lines on_entry n s text).1
  unfolding parse_lines
  lines_Sound zero s text v = v
  lines_Sound (suc n) s [] v = v
  lines_Sound (suc n) s (c ∷ cs) v =
      let t : State W = record s { line_number = suc s.line_number } in
      let r = on_line on_entry t (read_line (c ∷ cs) 0) in
      let w = line_Sound t (read_line (c ∷ cs) 0) v in
      proceed-Sound r.0 r.1 (parse_lines on_entry n r.1 r.2) w (lines_Sound n r.1 r.2 w)

-- Whatever the text holds and the callback answers, each entry that the callback gets has a key
-- that is not empty and a section name of less than 96 bytes.
pub ini_parse-Fine :
    {W : Type 0} (on_entry : W → Entry → Bool × W) (w : W) (text : List ℕ)
    → All Fine (ini_parse on_entry w text).1.calls
unfolding ini_parse
ini_parse-Fine on_entry w text =
    (lines_Sound on_entry (length text) (start on_entry w) text (tt, omega arith)).0

-- What is left after a line is no longer than the text.
abbrev Within : List ℕ → Option (List ℕ × List ℕ) → Type 0
Within s none = Unit
Within s (some r) = length r.1 ≤ length s

with_byte-Within :
    (c : ℕ) (cs : List ℕ) (o : Option (List ℕ × List ℕ)) → Within cs o → Within cs (with_byte c o)
with_byte-Within c cs none h = tt
with_byte-Within c cs (some r) h = h

longer-Within :
    (c : ℕ) (cs : List ℕ) (o : Option (List ℕ × List ℕ)) → Within cs o → Within (c ∷ cs) o
longer-Within c cs none h = tt
longer-Within c cs (some r) h = omega arith

-- A line takes its first byte at least.
first_byte-Within :
    (c : ℕ) (cs : List ℕ) (count : ℕ)
    → Within cs (read_line cs count)
    → Within cs (read_line cs (suc count))
    → Within cs (read_line (c ∷ cs) count)
unfolding read_line
first_byte-Within c cs count same more = elim (Bool-cases (c == 10)) [
  | inl a ↦ rw a (omega arith)
  | inr a ↦ elim (Bool-cases (leb max_line (count + 1))) [
    | inl b ↦ rw (a, b) tt
    | inr b ↦ elim (Bool-cases (c == 13)) [
      | inl d ↦ rw (a, b, d) same
      | inr d ↦ rw (a, b, d) (with_byte-Within c cs (read_line cs (suc count)) more)
    ]
  ]
]

read_line-Within : (s : List ℕ) (count : ℕ) → Within s (read_line s count)
unfolding read_line
read_line-Within [] count = omega arith
read_line-Within (c ∷ cs) count =
    let rest =
      first_byte-Within c cs count (read_line-Within cs count) (read_line-Within cs (suc count)) in
    longer-Within c cs (read_line (c ∷ cs) count) rest

module _ {W : Type 0} (on_entry : W → Entry → Bool × W) where
  on_line_shorter :
      (s : State W) (text : List ℕ) (o : Option (List ℕ × List ℕ))
      → Within text o
      → length (on_line on_entry s o).2 ≤ length text
  unfolding on_line
  on_line_shorter s text none h = omega arith
  on_line_shorter s text (some r) h = h

-- More rounds than the text has bytes change nothing, so no text is left unread for lack of them.
parse_lines_fuel :
    {W : Type 0} (on_entry : W → Entry → Bool × W) (n m : ℕ) (s : State W) (text : List ℕ)
    → length text ≤ n
    → length text ≤ m
    → parse_lines on_entry n s text ≡ parse_lines on_entry m s text
unfolding parse_lines
parse_lines_fuel on_entry zero zero s text h k = refl
parse_lines_fuel on_entry zero (suc m) s [] h k = refl
parse_lines_fuel on_entry zero (suc m) s (c ∷ cs) h k = absurd (omega arith)
parse_lines_fuel on_entry (suc n) zero s [] h k = refl
parse_lines_fuel on_entry (suc n) zero s (c ∷ cs) h k = absurd (omega arith)
parse_lines_fuel on_entry (suc n) (suc m) s [] h k = refl
parse_lines_fuel on_entry (suc n) (suc m) s (c ∷ cs) h k =
    let t : State _ = record s { line_number = suc s.line_number } in
    let within = first_byte-Within c cs 0 (read_line-Within cs 0) (read_line-Within cs 1) in
    let r = on_line on_entry t (read_line (c ∷ cs) 0) in
    let shorter = on_line_shorter on_entry t cs (read_line (c ∷ cs) 0) within in
    ap (λ more. proceed on_entry r.0 r.1 more)
      (parse_lines_fuel on_entry n m r.1 r.2 (omega (arith, shorter)) (omega (arith, shorter)))
