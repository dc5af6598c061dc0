-- ===== src/Machine/Outcomes.antt =====
-- Postconditions of runs.
use fscq.Base.{◌≡◌, refl}
use fscq.Machine.{Sys, Run, ok, panicked, exited, spins, undefined, out_of_fuel}

-- A run that returns, with a result that meets `P`.
abbrev pub Ends : {A : Type 0} → (A → Sys → Type 0) → Run A → Type 0
Ends P (ok a s) = P a s
Ends P (panicked p s) = ⊥
Ends P (exited s) = ⊥
Ends P spins = ⊥
Ends P undefined = ⊥
Ends P out_of_fuel = ⊥

pub Ends-ok :
    {A : Type 0} (P : A → Sys → Type 0) (r : Run A)
    → Ends P r
    → (a : A) × (s : Sys) × (r ≡ ok a s) × P a s
Ends-ok P (ok a s) h = (a, s, refl, h)
Ends-ok P (panicked p s) h = absurd h
Ends-ok P (exited s) h = absurd h
Ends-ok P spins h = absurd h
Ends-ok P undefined h = absurd h
Ends-ok P out_of_fuel h = absurd h
