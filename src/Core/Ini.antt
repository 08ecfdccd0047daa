-- ===== src/Core/Ini.antt =====
-- core/src/gc_ini.c: the reader of INI texts.
-- The callback is an argument that answers whether it took an entry; the calls are also kept in
-- the state, the newest first. The text and the callback are there.
pub mod Calls
use ghostcontrol_ps5_usb_con.Base.{
  ℕ, zero, suc, ◌+◌, ◌-◌, Bool, true, false, ◌&&◌, ◌||◌, not, Option, none, some, List, [], ◌∷◌,
  ◌++◌, length, get_or, take, drop, ltb, leb, ◌==◌, ◌!=◌, if◌then◌else◌,
}

abbrev pub max_line : ℕ
max_line = 1024

abbrev pub max_section : ℕ
max_section = 96

-- `isspace` in the C locale.
abbrev pub is_space : ℕ → Bool
is_space c = c == 32 || (leb 9 c && leb c 13)

-- What a C string has of the bytes: those before the first 0.
unfoldable pub c_string : List ℕ → List ℕ
c_string [] = []
c_string (c ∷ cs) = if c == 0 then [] else c ∷ c_string cs

unfoldable pub trim_front : List ℕ → List ℕ
trim_front [] = []
trim_front (c ∷ cs) = if is_space c then trim_front cs else c ∷ cs

abbrev pub keep_unless : Bool → ℕ → List ℕ → List ℕ
keep_unless drops c [] = if drops then [] else c ∷ []
keep_unless drops c (r ∷ rest) = c ∷ r ∷ rest

-- Without the spaces at the end.
unfoldable pub trim_back : List ℕ → List ℕ
trim_back [] = []
trim_back (c ∷ cs) = keep_unless (is_space c) c (trim_back cs)

unfoldable pub trim : List ℕ → List ℕ
unfolding trim_front trim_back
trim s = trim_back (trim_front s)

-- What stands before and after the first `c`: `strchr`, and the end put in its place.
unfoldable pub split_at : ℕ → List ℕ → Option (List ℕ × List ℕ)
split_at c [] = none
split_at c (x ∷ xs) =
    if x == c
    then some ([], xs)
    else elim (split_at c xs) [ none ↦ none | some (before, after) ↦ some (x ∷ before, after) ]

pub data IniError : Type 0 where
  line_too_long invalid_section invalid_section_length missing_equals empty_key : ℕ → IniError
  rejected : ℕ → IniError

pub record Entry : Type 0 where
  pub section : List ℕ
  pub key : List ℕ
  pub value : List ℕ

-- The value without a pair of quotes around it.
unfoldable pub unquote : List ℕ → List ℕ
unquote v =
    let n = length v in
    let first = get_or v 0 0 in
    let last = get_or v (n - 1) 0 in
    if leb 2 n && ((first == 34 && last == 34) || (first == 39 && last == 39))
    then drop 1 (take (n - 1) v)
    else v

abbrev pub with_byte : ℕ → Option (List ℕ × List ℕ) → Option (List ℕ × List ℕ)
with_byte c none = none
with_byte c (some r) = some (c ∷ r.0, r.1)

-- One line up to its end: the line without `\r`, and the text after the line end.
unfoldable pub read_line : List ℕ → ℕ → Option (List ℕ × List ℕ)
read_line [] count = some ([], [])
read_line (c ∷ cs) count =
    let same = read_line cs count in
    let more = read_line cs (suc count) in
    if c == 10
    then some ([], cs)
    else if leb max_line (count + 1)
    then none
    else if c == 13
    then same
    else with_byte c more

pub record State (W : Type 0) : Type 0 where
  pub world : W
  pub section : List ℕ
  pub line_number : ℕ
  pub calls : List Entry

module _ {W : Type 0} (on_entry : W → Entry → Bool × W) where
  abbrev pub call : State W → Entry → Option IniError × State W
  call s e =
      let r = on_entry s.world e in
      (
        if r.0 then none else some (rejected s.line_number),
        record s { world = r.1; calls = e ∷ s.calls },
      )

  unfoldable pub enter_section : State W → Option (List ℕ × List ℕ) → Option IniError × State W
  enter_section s none = (some (invalid_section s.line_number), s)
  enter_section s (some (before, after)) =
      if length (trim after) != 0
      then (some (invalid_section s.line_number), s)
      else if length (trim before) == 0 || leb max_section (length (trim before))
      then (some (invalid_section_length s.line_number), s)
      else (none, record s { section = trim before })

  unfoldable pub enter_setting : State W → Option (List ℕ × List ℕ) → Option IniError × State W
  enter_setting s none = (some (missing_equals s.line_number), s)
  enter_setting s (some (before, after)) =
      if length (trim before) == 0
      then (some (empty_key s.line_number), s)
      else call s (record { section = s.section; key = trim before; value = unquote (trim after) })

  -- A section's line, after its bracket.
  unfoldable pub on_section : State W → List ℕ → Option IniError × State W
  on_section s rest = enter_section s (split_at 93 rest)

  unfoldable pub on_setting : State W → List ℕ → Option IniError × State W
  on_setting s cursor = enter_setting s (split_at 61 cursor)

  unfoldable pub on_cursor : State W → List ℕ → Option IniError × State W
  on_cursor s [] = (none, s)
  on_cursor s (c ∷ cs) =
      if c == 35 || c == 59
      then (none, s)
      else if c == 91
      then on_section s cs
      else on_setting s (c ∷ cs)

  -- A line that was read, and the text after it.
  unfoldable pub on_line : State W → Option (List ℕ × List ℕ) → Option IniError × State W × List ℕ
  on_line s none = (some (line_too_long s.line_number), s, [])
  on_line s (some (line, rest)) = let r = on_cursor s (trim (c_string line)) in (r.0, r.1, rest)

  unfoldable pub proceed :
      Option IniError → State W → Option IniError × State W → Option IniError × State W
  proceed none s more = more
  proceed (some e) s more = (some e, s)

  -- The loop over the lines on fuel; each takes a byte at least.
  unfoldable pub parse_lines : ℕ → State W → List ℕ → Option IniError × State W
  parse_lines zero s text = (none, s)
  parse_lines (suc n) s [] = (none, s)
  parse_lines (suc n) s (c ∷ cs) =
      let r = on_line (record s { line_number = suc s.line_number }) (read_line (c ∷ cs) 0) in
      proceed r.0 r.1 (parse_lines n r.1 r.2)

  abbrev pub start : W → State W
  start w = record { world = w; section = []; line_number = 0; calls = [] }

  -- `none` is the result 0.
  unfoldable pub ini_parse : W → List ℕ → Option IniError × State W
  ini_parse w text = parse_lines (length text) (start w) text
