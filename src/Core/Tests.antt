-- ===== src/Core/Tests.antt =====
-- The theorems on core/src/gc_singleton.c and core/src/gc_ini.c at concrete inputs.
use ghostcontrol_ps5_usb_con.Base.{ℕ, suc, ◌≡◌, refl, Bool, true, false, some, List, [], ◌∷◌, All}
use ghostcontrol_ps5_usb_con.Base.{pos}
use ghostcontrol_ps5_usb_con.Core.Singleton.{Posix, State, delivered, takeover, try_lock, note}
use ghostcontrol_ps5_usb_con.Core.Singleton.Signals.{proper, takeover-proper}
use ghostcontrol_ps5_usb_con.Core.Ini.{Entry, ini_parse}
use ghostcontrol_ps5_usb_con.Core.Ini.Calls.{Fine, ini_parse-Fine}

-- A console where the lock is free.
abbrev quiet : Posix ℕ
quiet = record {
  getpid = pos 100;
  flock = λ w f. (true, w);
  kill = λ w pid sig. (delivered, w);
  usleep_ms = λ w ms. w;
  read_number = λ w. (some (pos 77), w);
  open_hold = λ w. (true, w);
  close_hold = λ w. w;
  write_pid = λ w pid. w;
}

-- One where the first process holds on to the lock for good.
abbrev stuck : Posix ℕ
stuck = record quiet { flock = λ w f. (false, w) }

abbrev fresh : State ℕ
fresh = record { world = 0; trace = [] }

takeover-proper_example : proper (pos 100) (takeover stuck fresh 1000).1.trace ≡ true
takeover-proper_example = takeover-proper stuck 0 1000

quiet_taken : (takeover quiet fresh 1000).0 ≡ true
unfolding takeover try_lock note
quiet_taken = refl

-- "[a]\nk=v\n".
abbrev ini : List ℕ
ini = 91 ∷ 97 ∷ 93 ∷ 10 ∷ 107 ∷ 61 ∷ 118 ∷ 10 ∷ []

abbrev count : ℕ → Entry → Bool × ℕ
count n e = (true, suc n)

ini_parse-Fine_example : All Fine (ini_parse count 0 ini).1.calls
ini_parse-Fine_example = ini_parse-Fine count 0 ini
