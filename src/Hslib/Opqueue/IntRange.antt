-- ===== src/Hslib/Opqueue/IntRange.antt =====
-- The range of the counters of src/hslib/opqueue.c.
use fscq.Base.{
  ℕ, leb, ◌-◌, ◌+◌, ◌≤◌, sym, subst, arith, none, some, Option, ℤ, Bool-cases, inl, inr,
}
use fscq.Hslib.Opqueue.{
  System, Client, Server, Thread, client, server, Event, run_client, run_server, call, reply, step,
  act, queue_max_size, client_step, server_step, call_step, answer_step, lock, is_full, is_empty,
  int_max, initialize, Reachable, start, next,
}
use fscq.Hslib.Opqueue.Operations.{Request}
use fscq.Hslib.Opqueue.Safety.{Reachable-Inv, step-cases}

abbrev IsCounted : System → Type 0
IsCounted s = s.puts ≤ int_max

lock-IsCounted :
    (spin : Option Thread) (t : Thread) (got s : System)
    → IsCounted got
    → IsCounted s
    → IsCounted (lock spin t got s)
lock-IsCounted none t got s g h = g
lock-IsCounted (some u) t got s g h = h

module _ (s : System) (h : IsCounted s) where
  client_step-IsCounted : (c : ℕ) (pc : Client) → IsCounted (client_step c s pc)
  unfolding client_step
  client_step-IsCounted c Client.idle = h
  client_step-IsCounted c Client.begin = h
  client_step-IsCounted c Client.poll = h
  client_step-IsCounted c (Client.polled p) = elim (Bool-cases (leb queue_max_size (p - s.gets))) [
    | inl full ↦ rw full h
    | inr room ↦ rw room h
  ]
  client_step-IsCounted c Client.acquire = lock-IsCounted s.spin (client c) _ s h h
  client_step-IsCounted c Client.test = elim (Bool-cases (is_full s)) [
    | inl full ↦ rw full h
    | inr room ↦ rw room h
  ]
  client_step-IsCounted c Client.retreat = h
  client_step-IsCounted c Client.store = h
  client_step-IsCounted c Client.bump = ground (arith, h)
  client_step-IsCounted c Client.leave = h
  client_step-IsCounted c Client.wait = elim (Bool-cases (s.op c).done) [
    | inl done ↦ rw done h
    | inr more ↦ rw more h
  ]
  client_step-IsCounted c Client.finish = h
  client_step-IsCounted c (Client.returned y) = h

  server_step-IsCounted : (j : ℕ) (pc : Server) → IsCounted (server_step j s pc)
  unfolding server_step
  server_step-IsCounted j Server.poll = h
  server_step-IsCounted j (Server.polled p) = elim (Bool-cases (leb p s.gets)) [
    | inl none_left ↦ rw none_left h
    | inr more ↦ rw more h
  ]
  server_step-IsCounted j Server.acquire = lock-IsCounted s.spin (server j) _ s h h
  server_step-IsCounted j Server.test = elim (Bool-cases (is_empty s)) [
    | inl none_left ↦ rw none_left h
    | inr more ↦ rw more h
  ]
  server_step-IsCounted j Server.retreat = h
  server_step-IsCounted j Server.take = h
  server_step-IsCounted j (Server.bump o) = h
  server_step-IsCounted j (Server.leave o) = h
  server_step-IsCounted j (Server.working o) = h
  server_step-IsCounted j (Server.answer o y) = h
  server_step-IsCounted j (Server.finish o) = h

  call_step-IsCounted : (c : ℕ) (r : Request) (pc : Client) → IsCounted (call_step c r s pc)
  unfolding call_step
  call_step-IsCounted c r Client.idle = h
  call_step-IsCounted c r Client.begin = h
  call_step-IsCounted c r Client.poll = h
  call_step-IsCounted c r (Client.polled p) = h
  call_step-IsCounted c r Client.acquire = h
  call_step-IsCounted c r Client.test = h
  call_step-IsCounted c r Client.retreat = h
  call_step-IsCounted c r Client.store = h
  call_step-IsCounted c r Client.bump = h
  call_step-IsCounted c r Client.leave = h
  call_step-IsCounted c r Client.wait = h
  call_step-IsCounted c r Client.finish = h
  call_step-IsCounted c r (Client.returned y) = h

  answer_step-IsCounted : (j : ℕ) (x : ℤ) (pc : Server) → IsCounted (answer_step j x s pc)
  unfolding answer_step
  answer_step-IsCounted j x Server.poll = h
  answer_step-IsCounted j x (Server.polled p) = h
  answer_step-IsCounted j x Server.acquire = h
  answer_step-IsCounted j x Server.test = h
  answer_step-IsCounted j x Server.retreat = h
  answer_step-IsCounted j x Server.take = h
  answer_step-IsCounted j x (Server.bump o) = h
  answer_step-IsCounted j x (Server.leave o) = h
  answer_step-IsCounted j x (Server.working o) = h
  answer_step-IsCounted j x (Server.answer o y) = h
  answer_step-IsCounted j x (Server.finish o) = h

act-IsCounted : (e : Event) (s : System) → IsCounted s → IsCounted (act e s)
unfolding act
act-IsCounted (run_client c) s h = client_step-IsCounted s h c (s.client c)
act-IsCounted (run_server j) s h = server_step-IsCounted s h j (s.server j)
act-IsCounted (call c r) s h = call_step-IsCounted s h c r (s.client c)
act-IsCounted (reply j x) s h = answer_step-IsCounted s h j x (s.server j)

step-IsCounted : (e : Event) (s : System) → IsCounted s → IsCounted (step e s)
step-IsCounted e s h = elim (step-cases e s) [
  | inl stopped ↦ subst IsCounted (sym stopped) h
  | inr acts ↦ subst IsCounted (sym acts) (act-IsCounted e s h)
]

Reachable-IsCounted : {s : System} → Reachable s → IsCounted s
Reachable-IsCounted (start junk) = unfold initialize in omega arith
Reachable-IsCounted (next {s} e r _) = step-IsCounted e s (Reachable-IsCounted r)

-- In every state that is reached with no overflow the ring has at least none and at most
-- QUEUE_MAX_SIZE operations, and the counters fit an `int`: `gets <= puts <= gets +
-- QUEUE_MAX_SIZE` and `puts <= INT_MAX`.
pub Reachable-bounds :
    (s : System)
    → Reachable s
    → (s.gets ≤ s.puts) × (s.puts ≤ s.gets + queue_max_size) × (s.puts ≤ int_max)
Reachable-bounds s r = ((Reachable-Inv r).order, (Reachable-Inv r).room, Reachable-IsCounted r)
