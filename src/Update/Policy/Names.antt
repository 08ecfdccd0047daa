-- ===== src/Update/Policy/Names.antt =====
-- The names of releases in core/src/gc_update_policy.c.
use ghostcontrol_ps5_usb_con.Base.{
  ℕ, ◌-◌, ◌≤◌, ◌<◌, ◌≡◌, sym, ap, ◌∙◌, true, List, ◌++◌, length, take, drop, drop-drop,
  take-append-drop, arith,
}
use ghostcontrol_ps5_usb_con.Update.Policy.{
  starts_with, same_text, zip_prefix, zip_suffix, is_app_zip,
}
use ghostcontrol_ps5_usb_con.Update.Policy.Order.{same_text_equal, starts_take}

zip_facts :
    (name : List ℕ)
    → is_app_zip name ≡ true
    → (35 ≤ length name)
      × (length name < 96)
      × (starts_with name zip_prefix ≡ true)
      × (same_text (drop (length name - 14) name) zip_suffix ≡ true)
unfolding is_app_zip
zip_facts name h = ground arith

-- A name that is taken for the app's archive is the prefix, some text, and then the suffix, where
-- the prefix and the suffix do not share a byte, and it has less than 96 bytes.
is_app_zip_lem :
    (name : List ℕ)
    → is_app_zip name ≡ true
    → (middle : List ℕ) × (name ≡ zip_prefix ++ (middle ++ zip_suffix)) × (length name < 96)
is_app_zip_lem name h =
    let (long, short, front, back) = zip_facts name h in
    let rest = drop 21 name in
    let n = length name - 35 in
    let end : drop n rest ≡ zip_suffix =
      drop-drop 21 n name
      ∙ ap (λ k. drop k name) (omega arith)
      ∙ same_text_equal (drop (length name - 14) name) zip_suffix back in
    (
      take n rest,
      sym (take-append-drop 21 name)
          ∙ ap (λ p. p ++ rest) (starts_take name zip_prefix front)
          ∙ ap (λ l. zip_prefix ++ l)
              (sym (take-append-drop n rest) ∙ ap (λ t. take n rest ++ t) end),
      short,
    )
