-- ===== src/Bt/HciRx/Ring.antt =====
-- The entries of core/src/bt/hci_rx.c in the order of their age: positions count on from the head
-- and go round at 64.
use ghostcontrol_ps5_usb_con.Base.{
  ℕ, zero, suc, ◌+◌, ◌%◌, ◌≤◌, ◌<◌, ◌≡◌, refl, ap, ap₂, ◌∙◌, ◌-◌, List, [], ◌∷◌, ◌++◌, length,
  get_or, set, arith, get_or-set_self, get_or-set_ne,
}
use ghostcontrol_ps5_usb_con.Bt.HciRx.{Entry, no_entry}

module _ (es : List Entry) where
  -- The `n` entries from position `h` on.
  abbrev pub window : ℕ → ℕ → List Entry
  window h zero = []
  window h (suc n) = get_or es (h % 64) no_entry ∷ window (suc h) n

  -- Positions that fall together show the same entries.
  pub window_mod : (h k n : ℕ) → h % 64 ≡ k % 64 → window h n ≡ window k n
  window_mod h k zero e = refl
  window_mod h k (suc n) e =
      ap₂ ◌∷◌ (ap (λ i. get_or es i no_entry) e) (window_mod (suc h) (suc k) n (omega arith))

  pub window-suc :
      (h n : ℕ) → window h (suc n) ≡ window h n ++ (get_or es ((h + n) % 64) no_entry ∷ [])
  window-suc h zero = ap (λ i. get_or es (i % 64) no_entry ∷ []) (omega arith)
  window-suc h (suc n) =
      ap (λ l. get_or es (h % 64) no_entry ∷ l)
        (window-suc (suc h) n
          ∙ ap (λ i. window (suc h) n ++ (get_or es (i % 64) no_entry ∷ [])) (omega arith))

  pub length-window : (h n : ℕ) → length (window h n) ≡ n
  length-window h zero = refl
  length-window h (suc n) = ap suc (length-window (suc h) n)

-- A write past a window, less than a whole round on, does not show in it.
pub window-set_past :
    (es : List Entry) (v : Entry) (j h n m : ℕ)
    → j ≡ (h + m) % 64
    → n ≤ m
    → m < 64
    → window (set es j v) h n ≡ window es h n
window-set_past es v j h zero m e le lt = refl
window-set_past es v j h (suc n) zero e le lt = absurd (omega arith)
window-set_past es v j h (suc n) (suc m) e le lt =
    ap₂ ◌∷◌ (get_or-set_ne es j (h % 64) v no_entry (omega arith))
      (window-set_past es v j (suc h) n m (omega arith) (omega arith) (omega arith))

-- A write just past a window extends it.
pub window-set :
    (es : List Entry) (v : Entry) (h n : ℕ)
    → length es ≡ 64
    → n < 64
    → window (set es ((h + n) % 64) v) h (suc n) ≡ window es h n ++ (v ∷ [])
window-set es v h n len lt = rw (
  window-suc (set es ((h + n) % 64) v) h n,
  window-set_past es v ((h + n) % 64) h n n refl (omega arith) lt,
  get_or-set_self es ((h + n) % 64) v no_entry (omega arith),
)

-- The window from a head in range: its first entry, and the window from the next head.
pub window_pop :
    (es : List Entry) (h n : ℕ)
    → h < 64
    → 0 < n
    → window es h n ≡ get_or es h no_entry ∷ window es ((h + 1) % 64) (n - 1)
window_pop es h zero lt p = absurd (omega arith)
window_pop es h (suc n) lt p =
    let first : h % 64 ≡ h = omega arith in
    let left : suc n - 1 ≡ n = omega arith in
    rw left (
      ap₂ ◌∷◌ (ap (λ i. get_or es i no_entry) first)
        (window_mod es (suc h) ((h + 1) % 64) n (omega arith)))
