-- ===== src/Bt/LinkPolicy/Rhythm.antt =====
-- The learned rhythm of a link (core/src/bt/linkpolicy.c) over any history of credit gaps.
use ghostcontrol_ps5_usb_con.Base.{
  ◌≡◌, ◌↔◌, ◌≤◌, Bool, false, ◌||◌, ◌&&◌, ltb, leb, List, [], ◌∷◌, some, arith,
}
use ghostcontrol_ps5_usb_con.Base.{ℤ, pos, negsuc}
use ghostcontrol_ps5_usb_con.Bt.LinkPolicy.{
  CreditGap, no_gap, gap_max_ms, idle_floor_ms, idle_cap_ms, credit_gap_add, credit_idle_limit,
}

unfoldable pub run_gaps : CreditGap → List ℤ → CreditGap
run_gaps g [] = g
run_gaps g (x ∷ xs) = run_gaps (credit_gap_add g x) xs

-- The gaps of 1 to 2000 ms.
abbrev pub is_plausible : ℤ → Bool
is_plausible (pos n) = ltb 0 n && leb n gap_max_ms
is_plausible (negsuc n) = false

abbrev pub any_plausible : List ℤ → Bool
any_plausible [] = false
any_plausible (x ∷ xs) = is_plausible x || any_plausible xs

pub record IsLearned (g : CreditGap) : Type 0 where
  pub avg_le : g.avg_ms ≤ g.longest_ms
  pub longest_le : g.longest_ms ≤ gap_max_ms

credit_gap_add-IsLearned : (g : CreditGap) (x : ℤ) → IsLearned g → IsLearned (credit_gap_add g x)
unfolding credit_gap_add
credit_gap_add-IsLearned g (pos x) h = ground arith
credit_gap_add-IsLearned g (negsuc x) h = ground arith

run_gaps-IsLearned : (g : CreditGap) (xs : List ℤ) → IsLearned g → IsLearned (run_gaps g xs)
unfolding run_gaps
run_gaps-IsLearned g [] h = h
run_gaps-IsLearned g (x ∷ xs) h =
    run_gaps-IsLearned (credit_gap_add g x) xs (credit_gap_add-IsLearned g x h)

-- An average of positive gaps stays positive, although the division rounds down.
has_rhythm : CreditGap → Bool
has_rhythm g = ltb 0 g.avg_ms

credit_gap_add_rhythm :
    (g : CreditGap) (x : ℤ) → has_rhythm (credit_gap_add g x) ≡ (has_rhythm g || is_plausible x)
unfolding credit_gap_add has_rhythm
credit_gap_add_rhythm g (pos x) = ground arith
credit_gap_add_rhythm g (negsuc x) = ground arith

run_gaps_rhythm :
    (g : CreditGap) (xs : List ℤ) → has_rhythm (run_gaps g xs) ≡ (has_rhythm g || any_plausible xs)
unfolding run_gaps
run_gaps_rhythm g [] = ground arith
run_gaps_rhythm g (x ∷ xs) =
    ground (arith, run_gaps_rhythm (credit_gap_add g x) xs, credit_gap_add_rhythm g x)

-- After any gaps from a fresh link, positive or not: the average is at most the longest gap and
-- that at most 2000 ms, the average is 0 exactly when no gap was of 1 to 2000 ms, and the idle
-- limit lies between 30 and 500 ms.
rhythm_bounds :
    (xs : List ℤ)
    → let g = run_gaps no_gap xs in
      IsLearned g
      × ((g.avg_ms ≡ 0) ↔ (any_plausible xs ≡ false))
      × (idle_floor_ms ≤ credit_idle_limit (some g))
      × (credit_idle_limit (some g) ≤ idle_cap_ms)
unfolding credit_idle_limit has_rhythm
rhythm_bounds xs =
    let r = run_gaps_rhythm no_gap xs in
    (run_gaps-IsLearned no_gap xs (omega arith), ground arith, ground arith, ground arith)
