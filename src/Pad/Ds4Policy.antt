-- ===== src/Pad/Ds4Policy.antt =====
-- core/src/gc_ds4_policy.c: which game pads the DualShock 4 sources feed.
-- A handle or an index is an int32; the input lists are never null, and the two output arrays,
-- of four places each, are the two lists of the result.
pub mod Routes
pub mod Selection
use ghostcontrol_ps5_usb_con.Base.{
  ℕ, zero, suc, ◌+◌, ◌-◌, ◌%◌, Bool, true, false, ◌&&◌, ◌||◌, not, Option, none, some, List, [],
  ◌∷◌, ◌++◌, length, take, ltb, leb, ◌==◌, ◌!=◌, if◌then◌else◌,
}
use Prim.Native.Nat.{bit_and}
use ghostcontrol_ps5_usb_con.Base.{ℤ, pos, negsuc, eq_ℤ}

abbrev pub max_routes : ℕ
max_routes = 4

abbrev pub max_pad_index : ℕ
max_pad_index = 7

pub record Ds4Source : Type 0 where
  pub user_id : ℤ
  pub pad_index : ℤ
  pub pad_handle : ℤ
  pub vendor_id : ℕ
  pub product_id : ℕ
  pub connected : Bool
  pub identity_verified : Bool

pub record Ds4GamePad : Type 0 where
  pub user_id : ℤ
  pub pad_index : ℤ
  pub pad_handle : ℤ
  pub vendor_id : ℕ
  pub product_id : ℕ
  pub connected : Bool
  pub valid : Bool

pub record Ds4Route : Type 0 where
  pub source_slot : ℕ  -- uint8
  pub game_slot : ℕ  -- uint8
  pub pad_handle : ℤ

pub data RouteResult : Type 0 where
  route_ok source_invalid source_duplicate no_exact_target ambiguous_target : RouteResult
  target_already_used : RouteResult

abbrev pub is_natural : ℤ → Bool
is_natural (pos n) = true
is_natural (negsuc n) = false

abbrev pub is_positive : ℤ → Bool
is_positive (pos n) = ltb 0 n
is_positive (negsuc n) = false

abbrev pub at_most : ℤ → ℕ → Bool
at_most (pos n) m = leb n m
at_most (negsuc n) m = true

unfoldable pub is_known : Bool → ℕ → ℕ → Bool
is_known connected vendor product =
    connected && vendor == 0x054c && (product == 0x05c4 || product == 0x09cc || product == 0x0ba0)

unfoldable pub source_valid : Ds4Source → Bool
source_valid s =
    s.identity_verified
    && s.connected
    && is_natural s.user_id
    && is_natural s.pad_index
    && at_most s.pad_index max_pad_index
    && is_positive s.pad_handle

-- Whether a source repeats one of those before it.
unfoldable pub is_duplicate : List Ds4Source → Ds4Source → Bool
is_duplicate [] s = false
is_duplicate (o ∷ os) s =
    if eq_ℤ o.pad_handle s.pad_handle || (eq_ℤ o.user_id s.user_id && eq_ℤ o.pad_index s.pad_index)
    then true
    else is_duplicate os s

unfoldable pub is_eligible : Ds4Source → Ds4GamePad → Bool
unfolding is_known
is_eligible s p =
    let eligible =
      is_known p.connected p.vendor_id p.product_id || (not p.connected && not p.valid) in
    is_positive p.pad_handle && eligible && eq_ℤ p.user_id s.user_id && eq_ℤ p.pad_index s.pad_index

-- The last candidate, with its place, and the number of candidates.
pub record Search : Type 0 where
  pub candidate : Option (ℕ × Ds4GamePad)
  pub candidate_count : ℕ

abbrev pub consider : Ds4Source → ℕ → Ds4GamePad → Search → Search
consider s game_slot p found =
    if is_eligible s p
    then record { candidate = some (game_slot, p); candidate_count = suc found.candidate_count }
    else found

unfoldable pub search_pads : Ds4Source → ℕ → List Ds4GamePad → Search → Search
unfolding is_eligible
search_pads s game_slot [] found = found
search_pads s game_slot (p ∷ ps) found =
    search_pads s (suc game_slot) ps (consider s game_slot p found)

unfoldable pub already_used : List Ds4Route → ℤ → Bool
already_used [] h = false
already_used (r ∷ rs) h = if eq_ℤ r.pad_handle h then true else already_used rs h

-- The result for the source at a slot, with the route it gets.
unfoldable pub match_found : ℕ → List Ds4Route → Search → RouteResult × List Ds4Route
unfolding already_used
match_found source_slot routes found =
    if found.candidate_count == 0
    then (no_exact_target, routes)
    else if found.candidate_count != 1
    then (ambiguous_target, routes)
    else elim (found.candidate) [
      | none ↦ (no_exact_target, routes)
      | some (game_slot, p) ↦
          if already_used routes p.pad_handle then (target_already_used, routes) else (
            route_ok,
            routes
                ++ record {
                  source_slot = source_slot % 256;
                  game_slot = game_slot % 256;
                  pad_handle = p.pad_handle;
                }
                  ∷ [],
          )
    ]

abbrev pub no_candidate : Search
no_candidate = record { candidate = none; candidate_count = 0 }

unfoldable pub select_one :
    List Ds4Source → Ds4Source → List Ds4GamePad → List Ds4Route → RouteResult × List Ds4Route
unfolding source_valid is_duplicate search_pads match_found
select_one before s pads routes =
    if source_valid s
    then if is_duplicate before s
      then (source_duplicate, routes)
      else match_found (length before) routes (search_pads s 0 pads no_candidate)
    else (source_invalid, routes)

-- The loop over the sources: those before, those left, the routes so far.
unfoldable pub select_loop :
    List Ds4Source
    → List Ds4Source
    → List Ds4GamePad
    → List Ds4Route
    → List Ds4Route × List RouteResult
select_loop before [] pads routes = (routes, [])
select_loop before (s ∷ ss) pads routes =
    let one = select_one before s pads routes in
    let rest = select_loop (before ++ s ∷ []) ss pads one.1 in (rest.0, one.0 ∷ rest.1)

-- The routes, whose number is the source's return value, and the results.
unfoldable pub select_routes : List Ds4Source → List Ds4GamePad → List Ds4Route × List RouteResult
unfolding select_loop
select_routes sources pads = select_loop [] (take max_routes sources) pads []

pub data MappingDisposition : Type 0 where
  unmap retain_reusable retain_quarantined : MappingDisposition

unfoldable pub mapping_disposition : Bool → Bool → Bool → MappingDisposition
mapping_disposition hook_was_visible bridge_disabled every_hook_restored =
    if not hook_was_visible
    then unmap
    else if bridge_disabled && every_hook_restored
    then retain_reusable
    else retain_quarantined

unfoldable pub next_sequence : ℕ → ℕ
next_sequence current = if current == 0xffffffff then 2 else current + 1

-- Every import that is required was found, by a scan to the end that met a hook and did not
-- overflow.
abbrev pub import_scan_complete : ℕ → ℕ → ℕ → Bool → Bool → Bool
import_scan_complete required_mask discovered_mask hook_count scan_complete overflowed =
    required_mask != 0
    && hook_count != 0
    && scan_complete
    && not overflowed
    && bit_and discovered_mask required_mask == required_mask
