-- ===== src/Hslib/Opqueue/Replies.antt =====
-- The reply that `send_result` of src/hslib/opqueue.c gives to an operation, on its way to the
-- caller of `execute`.
use fscq.Base.{
  ℕ, leb, ◌-◌, ◌==◌, sym, subst, false, ◌≡◌, ◌≢◌, refl, true, ◌⊎◌, inl, inr, List, [], ◌∷◌, arith,
  some, none, Option, ℤ, Bool-cases,
}
use fscq.Hslib.Opqueue.{
  System, Client, Server, Thread, client, server, Event, run_client, run_server, call, reply, step,
  act, queue_max_size, int_max, run, client_step, server_step, call_step, answer_step, lock,
  is_full, is_empty, go_client, go_server, Reachable,
}
use fscq.Hslib.Opqueue.Operations.{Request}
use fscq.Hslib.Opqueue.Invariant.{Inv}
use fscq.Hslib.Opqueue.Safety.{Reachable-Inv, Reachable-runs, step-Inv, step-cases}

-- The client has its operation back, or will see that it is done.
abbrev pub Waits : Client → ℤ → Type 0
Waits Client.leave x = Unit
Waits Client.wait x = Unit
Waits Client.finish x = Unit
Waits (Client.returned y) x = y ≡ x
Waits _ x = ⊥

-- Reply `x` has been sent to client `c`: it stands in the operation, which is done or about to be
-- done by server `j`; if the client has returned, then with `x`.
abbrev pub Sent : System → ℕ → ℕ → ℤ → Type 0
Sent s j c x =
    ((s.op c).err ≡ x)
    × Waits (s.client c) x
    × ((s.server j ≡ Server.finish c) ⊎ ((s.op c).done ≡ true))

-- No handler of client `c` is called in the schedule.
abbrev pub NoCall : ℕ → List Event → Type 0
NoCall c [] = Unit
NoCall c (call d r ∷ es) = (d ≢ c) × NoCall c es
NoCall c (run_client d ∷ es) = NoCall c es
NoCall c (run_server i ∷ es) = NoCall c es
NoCall c (reply i x ∷ es) = NoCall c es

module _ (s : System) (inv : Inv s) (j c : ℕ) (x : ℤ) (h : Sent s j c x) where
  lock-Sent :
      (spin : Option Thread) (t : Thread) (got : System)
      → Sent got j c x
      → Sent (lock spin t got s) j c x
  lock-Sent none t got g = g
  lock-Sent (some u) t got g = h

  client_step-Sent : (d : ℕ) (pc : Client) → s.client d ≡ pc → Sent (client_step d s pc) j c x
  unfolding client_step
  client_step-Sent d Client.idle e = ground (arith, h)
  client_step-Sent d Client.begin e = ground (arith, h)
  client_step-Sent d Client.poll e = ground (arith, h)
  client_step-Sent d (Client.polled p) e = elim (Bool-cases (leb queue_max_size (p - s.gets))) [
    | inl full ↦ rw full (ground (arith, h))
    | inr room ↦ rw room (ground (arith, h))
  ]
  client_step-Sent d Client.acquire e =
      lock-Sent s.spin (client d) (go_client d Client.test s) (ground (arith, h))
  client_step-Sent d Client.test e = elim (Bool-cases (is_full s)) [
    | inl full ↦ rw full (ground (arith, h))
    | inr room ↦ rw room (ground (arith, h))
  ]
  client_step-Sent d Client.retreat e = ground (arith, h)
  client_step-Sent d Client.store e = ground (arith, h)
  client_step-Sent d Client.bump e = elim (Bool-cases (s.puts == int_max)) [
    | inl over ↦ rw over h
    | inr counts ↦ rw counts (ground (arith, h))
  ]
  client_step-Sent d Client.leave e = ground (arith, h)
  client_step-Sent d Client.wait e = elim (Bool-cases (s.op d).done) [
    | inl done ↦ rw done (ground (arith, h))
    | inr more ↦ rw more (ground (arith, h))
  ]
  client_step-Sent d Client.finish e = ground (arith, h)
  client_step-Sent d (Client.returned y) e = ground (arith, h)

  server_step-Sent : (i : ℕ) (pc : Server) → s.server i ≡ pc → Sent (server_step i s pc) j c x
  unfolding server_step
  server_step-Sent i Server.poll e = ground (arith, h)
  server_step-Sent i (Server.polled p) e = elim (Bool-cases (leb p s.gets)) [
    | inl none_left ↦ rw none_left (ground (arith, h))
    | inr more ↦ rw more (ground (arith, h))
  ]
  server_step-Sent i Server.acquire e =
      lock-Sent s.spin (server i) (go_server i Server.test s) (ground (arith, h))
  server_step-Sent i Server.test e = elim (Bool-cases (is_empty s)) [
    | inl none_left ↦ rw none_left (ground (arith, h))
    | inr more ↦ rw more (ground (arith, h))
  ]
  server_step-Sent i Server.retreat e = ground (arith, h)
  server_step-Sent i Server.take e = ground (arith, h)
  server_step-Sent i (Server.bump o) e = ground (arith, h)
  server_step-Sent i (Server.leave o) e = ground (arith, h)
  server_step-Sent i (Server.working o) e = ground (arith, h)
  server_step-Sent i (Server.answer o y) e =
      ground (arith, h, inv.worked_on i o, inv.held_once i j o)
  server_step-Sent i (Server.finish o) e = ground (arith, h, inv.worked_on i o, inv.held_once i j o)

  call_step-Sent :
      (d : ℕ) (r : Request) (pc : Client)
      → d ≢ c
      → s.client d ≡ pc
      → Sent (call_step d r s pc) j c x
  unfolding call_step
  call_step-Sent d r Client.idle other e = ground (arith, h)
  call_step-Sent d r Client.begin other e = ground (arith, h)
  call_step-Sent d r Client.poll other e = ground (arith, h)
  call_step-Sent d r (Client.polled p) other e = ground (arith, h)
  call_step-Sent d r Client.acquire other e = ground (arith, h)
  call_step-Sent d r Client.test other e = ground (arith, h)
  call_step-Sent d r Client.retreat other e = ground (arith, h)
  call_step-Sent d r Client.store other e = ground (arith, h)
  call_step-Sent d r Client.bump other e = ground (arith, h)
  call_step-Sent d r Client.leave other e = ground (arith, h)
  call_step-Sent d r Client.wait other e = ground (arith, h)
  call_step-Sent d r Client.finish other e = ground (arith, h)
  call_step-Sent d r (Client.returned y) other e = ground (arith, h)

  answer_step-Sent :
      (i : ℕ) (y : ℤ) (pc : Server) → s.server i ≡ pc → Sent (answer_step i y s pc) j c x
  unfolding answer_step
  answer_step-Sent i y Server.poll e = ground (arith, h)
  answer_step-Sent i y (Server.polled p) e = ground (arith, h)
  answer_step-Sent i y Server.acquire e = ground (arith, h)
  answer_step-Sent i y Server.test e = ground (arith, h)
  answer_step-Sent i y Server.retreat e = ground (arith, h)
  answer_step-Sent i y Server.take e = ground (arith, h)
  answer_step-Sent i y (Server.bump o) e = ground (arith, h)
  answer_step-Sent i y (Server.leave o) e = ground (arith, h)
  answer_step-Sent i y (Server.working o) e = ground (arith, h)
  answer_step-Sent i y (Server.answer o z) e = ground (arith, h)
  answer_step-Sent i y (Server.finish o) e = ground (arith, h)

-- The event is no call by client `c`.
abbrev IsOther : ℕ → Event → Type 0
IsOther c (call d r) = d ≢ c
IsOther c _ = Unit

act-Sent :
    (e : Event) (s : System) (j c : ℕ) (x : ℤ)
    → Inv s
    → IsOther c e
    → Sent s j c x
    → Sent (act e s) j c x
unfolding act
act-Sent (run_client d) s j c x inv other h = client_step-Sent s inv j c x h d (s.client d) refl
act-Sent (run_server i) s j c x inv other h = server_step-Sent s inv j c x h i (s.server i) refl
act-Sent (call d r) s j c x inv other h = call_step-Sent s inv j c x h d r (s.client d) other refl
act-Sent (reply i y) s j c x inv other h = answer_step-Sent s inv j c x h i y (s.server i) refl

step-Sent :
    (e : Event) (s : System) (j c : ℕ) (x : ℤ)
    → Inv s
    → IsOther c e
    → Sent s j c x
    → Sent (step e s) j c x
step-Sent e s j c x inv other h = elim (step-cases e s) [
  | inl stopped ↦ subst (λ t. Sent t j c x) (sym stopped) h
  | inr acts ↦ subst (λ t. Sent t j c x) (sym acts) (act-Sent e s j c x inv other h)
]

NoCall-first : (c : ℕ) (e : Event) (es : List Event) → NoCall c (e ∷ es) → IsOther c e × NoCall c es
NoCall-first c (call d r) es h = h
NoCall-first c (run_client d) es h = (tt, h)
NoCall-first c (run_server i) es h = (tt, h)
NoCall-first c (reply i x) es h = (tt, h)

-- A reply that has been sent stays sent, until the client's thread calls a handler again.
run-Sent :
    (es : List Event) (s : System) (j c : ℕ) (x : ℤ)
    → Inv s
    → NoCall c es
    → Sent s j c x
    → Sent (run es s) j c x
unfolding run
run-Sent [] s j c x inv quiet h = h
run-Sent (e ∷ es) s j c x inv quiet h =
    let (other, later) = NoCall-first c e es quiet in
    run-Sent es _ j c x (step-Inv e s inv) later (step-Sent e s j c x inv other h)

-- `op->err = err` sends the reply.
answered-Sent :
    (s : System) (j c : ℕ) (x : ℤ)
    → Inv s
    → s.overflowed ≡ false
    → s.server j ≡ Server.answer c x
    → Sent (step (run_server j) s) j c x
unfolding step act server_step
answered-Sent s j c x inv runs e = rw runs (ground (arith, inv.worked_on j c))

-- From a reachable state in which server `j` is about to set `op->err` of client `c` to `x`,
-- after this step and any schedule in which `c` calls no handler, the operation has the reply `x`
-- and is done or about to be done by `j`; client `c` is on its way out of `execute`, or has
-- returned, and then with `x`.
pub send_result-Sent :
    (s : System) (j c : ℕ) (x : ℤ) (es : List Event)
    → Reachable s
    → s.server j ≡ Server.answer c x
    → NoCall c es
    → Sent (run es (step (run_server j) s)) j c x
send_result-Sent s j c x es r e quiet =
    run-Sent es _ j c x (step-Inv (run_server j) s (Reachable-Inv r)) quiet
      (answered-Sent s j c x (Reachable-Inv r) (Reachable-runs r) e)
