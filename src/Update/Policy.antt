-- ===== src/Update/Policy.antt =====
-- core/src/gc_update_policy.c: which release is newer, and which download is the app's.
pub mod Order
pub mod Names
-- A text is the list of its bytes before the one that is 0; no pointer is null. The messages for
-- the user are constructors of `InfoError`.
use ghostcontrol_ps5_usb_con.Base.{
  ℕ, zero, suc, ◌+◌, ◌-◌, ◌*◌, Bool, true, false, ◌&&◌, ◌||◌, not, Option, none, some, ◌>>=◌, List,
  [], ◌∷◌, ◌++◌, length, get_or, drop, take, ltb, leb, ◌==◌, ◌!=◌, if◌then◌else◌,
}
use ghostcontrol_ps5_usb_con.Base.{ℤ, pos, negsuc}

abbrev pub asset_max : ℕ
asset_max = 96

abbrev pub size_min : ℕ
size_min = 1048576

abbrev pub size_max : ℕ
size_max = 268435456

abbrev pub is_digit : ℕ → Bool
is_digit c = leb 48 c && leb c 57

abbrev pub peek : List ℕ → ℕ
peek s = get_or s 0 0

abbrev pub dot : ℕ
dot = 46

abbrev pub dash : ℕ
dash = 45

pub record Number : Type 0 where
  pub value : ℕ
  pub rest : List ℕ

-- The loop over the digits of one part.
unfoldable pub digits : List ℕ → ℕ → Option Number
digits [] n = some (record { value = n; rest = [] })
digits (c ∷ cs) n =
    let more = digits cs (n * 10 + (c - 48)) in
    if is_digit c
    then if ltb 100000 n then none else more
    else some (record { value = n; rest = c ∷ cs })

unfoldable pub part : List ℕ → Option Number
unfolding digits
part s = if is_digit (peek s) then digits s 0 else none

-- The dot after a part that is not the last.
unfoldable pub after_dot : List ℕ → Option (List ℕ)
after_dot [] = none
after_dot (c ∷ cs) = if c == dot then some cs else none

pub record Version : Type 0 where
  pub major : ℕ
  pub minor : ℕ
  pub patch : ℕ
  pub prerelease : Bool

-- The letter v or V in front.
abbrev pub skip_v : List ℕ → List ℕ
skip_v [] = []
skip_v (c ∷ cs) = if c == 118 || c == 86 then cs else c ∷ cs

unfoldable pub version_end : ℕ → ℕ → Number → Option Version
version_end major minor last =
    if peek last.rest == 0 || peek last.rest == dash
    then some (record {
      major = major;
      minor = minor;
      patch = last.value;
      prerelease = peek last.rest == dash;
    })
    else none

-- `none` is the result -1.
unfoldable pub parse_version : List ℕ → Option Version
unfolding part after_dot version_end
parse_version s = do
  first ← part (skip_v s)
  tail ← after_dot first.rest
  second ← part tail
  tail ← after_dot second.rest
  third ← part tail
  version_end first.value second.value third

abbrev pub number_of : Bool → ℕ
number_of true = 1
number_of false = 0

abbrev pub ordered : ℕ → ℕ → ℤ → ℤ
ordered l r same = if l == r then same else if ltb r l then pos 1 else negsuc 0

-- `right_pre - left_pre`.
abbrev pub by_prerelease : Bool → Bool → ℤ
by_prerelease false true = pos 1
by_prerelease true false = negsuc 0
by_prerelease _ _ = pos 0

unfoldable pub compare_versions : Version → Version → ℤ
compare_versions l r =
    ordered l.major r.major
      (ordered l.minor r.minor (ordered l.patch r.patch (by_prerelease l.prerelease r.prerelease)))

unfoldable pub version_compare : List ℕ → List ℕ → Option ℤ
unfolding parse_version compare_versions
version_compare left right = do
  l ← parse_version left
  r ← parse_version right
  some (compare_versions l r)

unfoldable pub same_text : List ℕ → List ℕ → Bool
same_text [] [] = true
same_text (a ∷ s) (b ∷ t) = a == b && same_text s t
same_text _ _ = false

unfoldable pub starts_with : List ℕ → List ℕ → Bool
starts_with s [] = true
starts_with [] (p ∷ ps) = false
starts_with (a ∷ s) (p ∷ ps) = a == p && starts_with s ps

-- "Ghostcontrol-Toolbox-".
abbrev pub zip_prefix : List ℕ
zip_prefix =
    71 ∷ 104 ∷ 111 ∷ 115 ∷ 116 ∷ 99 ∷ 111 ∷ 110 ∷ 116 ∷ 114 ∷ 111 ∷ 108 ∷ 45 ∷ 84 ∷ 111 ∷ 111 ∷ 108
    ∷ 98 ∷ 111 ∷ 120 ∷ 45 ∷ []

-- "-PPSA62838.zip".
abbrev pub zip_suffix : List ℕ
zip_suffix = 45 ∷ 80 ∷ 80 ∷ 83 ∷ 65 ∷ 54 ∷ 50 ∷ 56 ∷ 51 ∷ 56 ∷ 46 ∷ 122 ∷ 105 ∷ 112 ∷ []

unfoldable pub is_app_zip : List ℕ → Bool
is_app_zip name =
    if ltb (length name) (length zip_prefix + length zip_suffix) || leb asset_max (length name)
    then false
    else if not (starts_with name zip_prefix)
    then false
    else same_text (drop (length name - length zip_suffix) name) zip_suffix

pub record UpdateInfo : Type 0 where
  pub tag : List ℕ
  pub asset_name : List ℕ
  pub url : List ℕ
  pub sha256 : List ℕ
  pub size : ℕ

pub data InfoError : Type 0 where
  not_official wrong_size no_digest bad_digest : InfoError

abbrev pub is_hex : ℕ → Bool
is_hex c = is_digit c || (leb 97 c && leb c 102)

unfoldable pub all_hex : List ℕ → Bool
all_hex [] = true
all_hex (c ∷ cs) = is_hex c && all_hex cs

-- "https://github.com/StonedModder/Ghostcontrol-PS5-USB-Controller-Patcher/releases/download/".
abbrev pub url_prefix : List ℕ
url_prefix =
    104 ∷ 116 ∷ 116 ∷ 112 ∷ 115 ∷ 58 ∷ 47 ∷ 47 ∷ 103 ∷ 105 ∷ 116 ∷ 104 ∷ 117 ∷ 98 ∷ 46 ∷ 99 ∷ 111
    ∷ 109 ∷ 47 ∷ 83 ∷ 116 ∷ 111 ∷ 110 ∷ 101 ∷ 100 ∷ 77 ∷ 111 ∷ 100 ∷ 100 ∷ 101 ∷ 114 ∷ 47 ∷ 71 ∷ 104
    ∷ 111 ∷ 115 ∷ 116 ∷ 99 ∷ 111 ∷ 110 ∷ 116 ∷ 114 ∷ 111 ∷ 108 ∷ 45 ∷ 80 ∷ 83 ∷ 53 ∷ 45 ∷ 85 ∷ 83
    ∷ 66 ∷ 45 ∷ 67 ∷ 111 ∷ 110 ∷ 116 ∷ 114 ∷ 111 ∷ 108 ∷ 108 ∷ 101 ∷ 114 ∷ 45 ∷ 80 ∷ 97 ∷ 116 ∷ 99
    ∷ 104 ∷ 101 ∷ 114 ∷ 47 ∷ 114 ∷ 101 ∷ 108 ∷ 101 ∷ 97 ∷ 115 ∷ 101 ∷ 115 ∷ 47 ∷ 100 ∷ 111 ∷ 119
    ∷ 110 ∷ 108 ∷ 111 ∷ 97 ∷ 100 ∷ 47 ∷ []

-- `none` is the result 0.
unfoldable pub info_validate : UpdateInfo → Option InfoError
info_validate i =
    if peek i.tag == 0 || not (is_app_zip i.asset_name) || not (starts_with i.url url_prefix)
    then some not_official
    else if ltb i.size size_min || ltb size_max i.size
    then some wrong_size
    else if length i.sha256 != 64
    then some no_digest
    else if not (all_hex i.sha256)
    then some bad_digest
    else none

unfoldable pub zip_validate : List ℕ → ℕ → Bool
zip_validate header file_size =
    if ltb (length header) 4
      || ltb file_size size_min
      || get_or header 0 0 != 80
      || get_or header 1 0 != 75
      || get_or header 2 0 != 3
      || get_or header 3 0 != 4
    then false
    else true
