-- ===== src/Hslib/Opqueue/Safety.antt =====
-- What holds in every state that the threads of src/hslib/opqueue.c reach.
use fscq.Base.{
  ℕ, if◌then◌else◌, ap, ◌∙◌, false, sym, subst, ◌⊎◌, inl, inr, Bool-cases, ◌≤◌, ◌<◌, ◌≡◌, ◌≢◌, refl,
  true, arith, some, List, [], ◌∷◌,
}
use fscq.Hslib.Opqueue.{
  System, Thread, client, server, Operation, Event, run_client, run_server, call, reply, step, act,
  run, initialize, Reachable, start, next,
}
use fscq.Hslib.Opqueue.Invariant.{client_locks, server_locks, held, IsLent, slot, Inv}
use fscq.Hslib.Opqueue.ClientSteps.{client_step-Inv, call_step-Inv}
use fscq.Hslib.Opqueue.ServerSteps.{server_step-Inv, answer_step-Inv}

initialize-Inv : (junk : ℕ → Operation) → Inv (initialize junk)
unfolding initialize
initialize-Inv junk = record {
  order = omega arith;
  room = omega arith;
  by_client = λ c h. cc;
  by_server = λ j h. cc;
  cleared = λ c h. cc;
  may_store = λ c h. cc;
  stored = λ c h. cc;
  may_take = λ j h. cc;
  taken = λ j o h. cc;
  queued = λ k lo hi. absurd (omega arith);
  queued_once = λ k l lo hi lo' hi' e. absurd (omega arith);
  worked_on = λ j o h. cc;
  held_once = λ i j o h h'. cc;
  apart = λ j o k h lo hi. cc;
}

act-Inv : (e : Event) (s : System) → Inv s → Inv (act e s)
unfolding act
act-Inv (run_client c) s inv = client_step-Inv c s inv (s.client c) refl
act-Inv (run_server j) s inv = server_step-Inv j s inv (s.server j) refl
act-Inv (call c r) s inv = call_step-Inv c s inv r (s.client c) refl
act-Inv (reply j e) s inv = answer_step-Inv j s inv e (s.server j) refl

-- A step is an action, or there is none after an overflow.
pub step-cases : (e : Event) (s : System) → (step e s ≡ s) ⊎ (step e s ≡ act e s)
unfolding step
step-cases e s = elim (Bool-cases s.overflowed) [
  | inl over ↦ inl (rw over refl)
  | inr runs ↦ inr (rw runs refl)
]

pub step-Inv : (e : Event) (s : System) → Inv s → Inv (step e s)
step-Inv e s inv = elim (step-cases e s) [
  | inl none_left ↦ subst Inv (sym none_left) inv
  | inr acts ↦ subst Inv (sym acts) (act-Inv e s inv)
]

pub Reachable-Inv : {s : System} → Reachable s → Inv s
Reachable-Inv (start junk) = initialize-Inv junk
Reachable-Inv (next {s} e r _) = step-Inv e s (Reachable-Inv r)

-- The threads in the critical sections of `execute` and `get_op`.
abbrev pub IsCritical : System → Thread → Type 0
IsCritical s (client c) = client_locks (s.client c) ≡ true
IsCritical s (server j) = server_locks (s.server j) ≡ true

IsCritical-spin : (s : System) → Inv s → (t : Thread) → IsCritical s t → s.spin ≡ some t
IsCritical-spin s inv (client c) h = inv.by_client c h
IsCritical-spin s inv (server j) h = inv.by_server j h

-- In a reachable state at most one thread is in a critical section of `execute` or `get_op`.
pub mutual_exclusion :
    (s : System) → Reachable s → (t u : Thread) → IsCritical s t → IsCritical s u → t ≡ u
mutual_exclusion s r t u ht hu =
    ground
      (arith, IsCritical-spin s (Reachable-Inv r) t ht, IsCritical-spin s (Reachable-Inv r) u hu)

-- In a reachable state the operation that a server works on is on the stack of a client that is
-- still in `execute`, and is not done; no other server has it, and it is not in the ring any
-- more.
pub held_lem :
    (s : System)
    → Reachable s
    → (j o : ℕ) → held (s.server j) ≡ some o
    → IsLent s o
      × ((i : ℕ) → held (s.server i) ≡ some o → i ≡ j)
      × ((k : ℕ) → s.gets ≤ k → k < s.puts → slot s k ≢ o)
held_lem s r j o h = (
  (Reachable-Inv r).worked_on j o h,
  λ i hi. (Reachable-Inv r).held_once i j o hi h,
  λ k. (Reachable-Inv r).apart j o k h,
)

pub Reachable-runs : {s : System} → Reachable s → s.overflowed ≡ false
Reachable-runs (start junk) = unfold initialize in refl
Reachable-runs (next e r runs) = runs

-- An overflow ends the run.
run-stopped : (es : List Event) (s : System) → s.overflowed ≡ true → run es s ≡ s
unfolding run step
run-stopped [] s over = refl
run-stopped (e ∷ es) s over =
    ap (λ b. run es (if b then s else act e s)) over ∙ run-stopped es s over

-- The states of a schedule are reachable, if there was no overflow by its end.
pub run-Reachable :
    (es : List Event) (s : System)
    → Reachable s
    → (run es s).overflowed ≡ false
    → Reachable (run es s)
unfolding run
run-Reachable [] s r runs = r
run-Reachable (e ∷ es) s r runs = elim (Bool-cases (step e s).overflowed) [
  | inl over ↦
      let stopped : (run es (step e s)).overflowed ≡ true =
        ap (λ (t : System). t.overflowed) (run-stopped es (step e s) over) ∙ over in
      absurd cc
  | inr goes ↦ run-Reachable es (step e s) (next e r goes) runs
]
