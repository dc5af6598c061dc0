-- ===== src/Machine/Post.antt =====
-- What a command leaves when it returns, and when it stops for want of a buffer: no other way to end
-- is allowed.
use fscq.Base.{◌≡◌, refl}
use fscq.Machine.{
  Sys, Run, ok, panicked, exited, spins, undefined, out_of_fuel, M, and_then, ◌>>=◌,
  bget_no_buffers,
}

abbrev Outcome : {A : Type 0} → (A → Sys → Type 0) → (Sys → Type 0) → Run A → Type 0
Outcome G B (ok a t) = G a t
Outcome G B (panicked p t) = (p ≡ bget_no_buffers) × B t
Outcome G B (exited t) = ⊥
Outcome G B spins = ⊥
Outcome G B undefined = ⊥
Outcome G B out_of_fuel = ⊥

-- The run returned in a state with `G`, or it stopped with the panic of `bget` in one with `B`.
pub record Post {A : Type 0} (G : A → Sys → Type 0) (B : Sys → Type 0) (r : Run A) : Type 0 where
  pub outcome : Outcome G B r

module _ {A C : Type 0} {G : A → Sys → Type 0} {H : C → Sys → Type 0} {B : Sys → Type 0} where
  -- In a sequence, the second command starts where the first one has returned.
  and_then-Post :
      (r : Run A) (k : A → M C)
      → Post G B r
      → ((a : A) (t : Sys) → G a t → Post H B (k a t))
      → Post H B (and_then r k)
  and_then-Post (ok a t) k h next = next a t h.outcome
  and_then-Post (panicked p t) k h next = record { outcome = h.outcome }
  and_then-Post (exited t) k h next = absurd h.outcome
  and_then-Post spins k h next = absurd h.outcome
  and_then-Post undefined k h next = absurd h.outcome
  and_then-Post out_of_fuel k h next = absurd h.outcome

  pub bind-Post :
      (m : M A) (k : A → M C) (s : Sys)
      → Post G B (m s)
      → ((a : A) (t : Sys) → G a t → Post H B (k a t))
      → Post H B ((m >>= k) s)
  bind-Post m k s h next = and_then-Post (m s) k h next

-- A run that is known to return, or to stop.
module _ {A : Type 0} {G : A → Sys → Type 0} {B : Sys → Type 0} {r : Run A} where
  pub ok-Post : {a : A} {t : Sys} → r ≡ ok a t → G a t → Post G B r
  ok-Post e g = rw e record { outcome = g }

  pub panicked-Post : {t : Sys} → r ≡ panicked bget_no_buffers t → B t → Post G B r
  panicked-Post e b = rw e record { outcome = (refl, b) }

pub weaken-Post :
    {A : Type 0} {G H : A → Sys → Type 0} {B C : Sys → Type 0} (r : Run A)
    → Post G B r
    → ((a : A) (t : Sys) → G a t → H a t)
    → ((t : Sys) → B t → C t)
    → Post H C r
weaken-Post (ok a t) h good bad = record { outcome = good a t h.outcome }
weaken-Post (panicked p t) h good bad = record { outcome = (h.outcome.0, bad t h.outcome.1) }
weaken-Post (exited t) h good bad = record { outcome = h.outcome }
weaken-Post spins h good bad = record { outcome = h.outcome }
weaken-Post undefined h good bad = record { outcome = h.outcome }
weaken-Post out_of_fuel h good bad = record { outcome = h.outcome }
