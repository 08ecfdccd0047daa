-- ===== src/Update/Tests.antt =====
-- The theorems on core/src/gc_update_policy.c at concrete inputs.
use ghostcontrol_ps5_usb_con.Base.{ℕ, ◌≡◌, refl, true, false, some, List, [], ◌∷◌, ◌++◌}
use ghostcontrol_ps5_usb_con.Base.{pos}
use ghostcontrol_ps5_usb_con.Update.Policy.{
  Version, parse_version, part, digits, after_dot, version_end, version_compare, compare_versions,
  is_app_zip, starts_with, same_text, zip_prefix, zip_suffix,
}

-- "v1.2.3" and "1.2.3-b".
abbrev final : List ℕ
final = 118 ∷ 49 ∷ 46 ∷ 50 ∷ 46 ∷ 51 ∷ []

abbrev beta : List ℕ
beta = 49 ∷ 46 ∷ 50 ∷ 46 ∷ 51 ∷ 45 ∷ 98 ∷ []

final_newer : version_compare final beta ≡ some (pos 1)
unfolding version_compare parse_version part digits after_dot version_end compare_versions
final_newer = refl

abbrev version : Version
version = record { major = 1; minor = 2; patch = 3; prerelease = false }

final_read : parse_version final ≡ some version
unfolding parse_version part digits after_dot version_end
final_read = refl

abbrev archive : List ℕ
archive = zip_prefix ++ (49 ∷ zip_suffix)

archive_taken : is_app_zip archive ≡ true
unfolding is_app_zip starts_with same_text
archive_taken = refl
