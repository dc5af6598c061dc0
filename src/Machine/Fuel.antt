-- ===== src/Machine/Fuel.antt =====
-- Commands that never run out of rounds, whatever the state.
use fscq.Base.{Option, none, some, Bool, true, false, if◌then◌else◌}
use fscq.Machine.{
  Sys, Run, ok, panicked, exited, spins, undefined, out_of_fuel, M, Panic, and_then, ◌>>=◌, modify,
  gets, pure, panic, when, Void, undefined_behaviour, wait_for_ever,
}

-- The run did not stop for lack of rounds.
abbrev pub HasFuel : {A : Type 0} → Run A → Type 0
HasFuel (ok a s) = Unit
HasFuel (panicked p s) = Unit
HasFuel (exited s) = Unit
HasFuel spins = Unit
HasFuel undefined = Unit
HasFuel out_of_fuel = ⊥

pub record IsFueled {A : Type 0} (m : M A) : Type 0 where
  pub run : (s : Sys) → HasFuel (m s)

-- A sequence has rounds enough if its parts do, wherever they start.
and_then-HasFuel :
    {A B : Type 0} (r : Run A) (k : A → M B)
    → HasFuel r
    → ((a : A) → IsFueled (k a))
    → HasFuel (and_then r k)
and_then-HasFuel (ok a s) k h hk = (hk a).run s
and_then-HasFuel (panicked p s) k h hk = tt
and_then-HasFuel (exited s) k h hk = tt
and_then-HasFuel spins k h hk = tt
and_then-HasFuel undefined k h hk = tt
and_then-HasFuel out_of_fuel k h hk = absurd h

pub bind-IsFueled :
    {A B : Type 0} {m : M A} {k : A → M B}
    → IsFueled m
    → ((a : A) → IsFueled (k a))
    → IsFueled (m >>= k)
bind-IsFueled {m} {k} hm hk = record { run = λ s. and_then-HasFuel (m s) k (hm.run s) hk }

pub if-IsFueled :
    {A : Type 0} {m n : M A} (b : Bool) → IsFueled m → IsFueled n → IsFueled (if b then m else n)
if-IsFueled true hm hn = hm
if-IsFueled false hm hn = hn

pub modify-IsFueled : (f : Sys → Sys) → IsFueled (modify f)
modify-IsFueled f = record { run = λ s. tt }

pub gets-IsFueled : {A : Type 0} (f : Sys → A) → IsFueled (gets f)
gets-IsFueled f = record { run = λ s. tt }

pub pure-IsFueled : {A : Type 0} (a : A) → IsFueled (pure a)
pure-IsFueled a = record { run = λ s. tt }

pub panic-IsFueled : {A : Type 0} (p : Panic) → IsFueled (panic {A = A} p)
panic-IsFueled p = record { run = λ s. tt }

pub when-IsFueled : {m : M Void} (b : Bool) → IsFueled m → IsFueled (when b m)
when-IsFueled true h = h
when-IsFueled false h = record { run = λ s. tt }

pub undefined-IsFueled : {A : Type 0} → IsFueled (undefined_behaviour {A = A})
undefined-IsFueled = record { run = λ s. tt }

pub wait-IsFueled : {A : Type 0} → IsFueled (wait_for_ever {A = A})
wait-IsFueled = record { run = λ s. tt }

pub Option-IsFueled :
    {A B : Type 0} {n : M B} {f : A → M B} (o : Option A)
    → IsFueled n
    → ((x : A) → IsFueled (f x))
    → IsFueled (elim o [ none ↦ n | some x ↦ f x ])
Option-IsFueled none hn hf = hn
Option-IsFueled (some x) hn hf = hf x

-- The rules for the parts of a command.
pub ruleset fueled = (
  bind-IsFueled, if-IsFueled, when-IsFueled, gets-IsFueled, modify-IsFueled, pure-IsFueled,
  panic-IsFueled, undefined-IsFueled, wait-IsFueled, Option-IsFueled,
)
