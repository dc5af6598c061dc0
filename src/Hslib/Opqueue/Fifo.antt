-- ===== src/Hslib/Opqueue/Fifo.antt =====
-- The ring `q` of src/hslib/opqueue.c as a bounded first-in first-out queue.
use fscq.Base.{
  ℕ, zero, suc, ◌≢◌, ap, sym, subst, true, leb, ◌==◌, ==_iff, ◌+◌, ◌-◌, ◌%◌, ◌≤◌, ◌<◌, ◌≡◌, refl,
  List, [], ◌∷◌, ◌++◌, length, arith, Option, none, some, Bool-cases, inl, inr, ℤ,
}
use fscq.Machine.{upd}
use fscq.Hslib.Opqueue.{
  System, Client, Server, Thread, client, server, Event, run_client, run_server, call, reply, step,
  act, go_client, go_server, int_max, client_step, server_step, call_step, answer_step, lock,
  is_full, is_empty, queue_max_size, Reachable,
}
use fscq.Hslib.Opqueue.Operations.{Request}
use fscq.Hslib.Opqueue.Invariant.{held, lends, Inv}
use fscq.Hslib.Opqueue.Safety.{Reachable-Inv, step-cases}
use fscq.Hslib.Opqueue.IntRange.{Reachable-bounds}

-- The operations in `n` slots from `k` on.
unfoldable pub collect : (ℕ → ℕ) → ℕ → ℕ → List ℕ
collect ops k zero = []
collect ops k (suc n) = ops (k % queue_max_size) ∷ collect ops (k + 1) n

-- The abstract queue of a state.
abbrev pending : System → List ℕ
pending s = collect s.ops s.gets (s.puts - s.gets)

-- No operation is lent to the queue, and no server gets one.
pub record Stutters (s t : System) : Type 0 where
  pub same : pending t ≡ pending s
  pub none_lent : (d : ℕ) → lends (t.client d) ≡ true → lends (s.client d) ≡ true
  pub none_held : (i o : ℕ) → held (t.server i) ≡ some o → held (s.server i) ≡ some o

-- A client puts its own operation at the end, where there is room, and lends it.
pub record Pushes (s : System) (c : ℕ) (t : System) : Type 0 where
  pub room : length (pending s) < queue_max_size
  pub in_range : s.puts < int_max
  pub pushed : pending t ≡ pending s ++ c ∷ []
  pub lent : lends (t.client c) ≡ true
  pub others : (d : ℕ) → d ≢ c → t.client d ≡ s.client d
  pub same_servers : t.server ≡ s.server

-- A server takes the first operation, and has it; it had none.
pub record Pops (s : System) (j : ℕ) (t : System) : Type 0 where
  pub first : ℕ
  pub popped : pending s ≡ first ∷ pending t
  pub had_none : held (s.server j) ≡ none
  pub has : held (t.server j) ≡ some first
  pub others : (i : ℕ) → i ≢ j → t.server i ≡ s.server i
  pub same_clients : t.client ≡ s.client

-- What a step does to the queue.
pub data FifoStep (e : Event) (s t : System) : Type 0 where
  stutter : Stutters s t → FifoStep e s t
  push : (c : ℕ) → e ≡ run_client c → Pushes s c t → FifoStep e s t
  pop : (j : ℕ) → e ≡ run_server j → Pops s j t → FifoStep e s t
  overflow : s.puts ≡ int_max → t ≡ record s { overflowed = true } → FifoStep e s t

length-collect : (ops : ℕ → ℕ) (n k : ℕ) → length (collect ops k n) ≡ n
unfolding collect
length-collect ops zero k = refl
length-collect ops (suc n) k = ground (arith, length-collect ops n (k + 1))

collect-suc :
    (ops : ℕ → ℕ) (n k : ℕ)
    → collect ops k (suc n) ≡ collect ops k n ++ ops ((k + n) % queue_max_size) ∷ []
unfolding collect
collect-suc ops zero k = ground arith
collect-suc ops (suc n) k = ground (arith, collect-suc ops n (k + 1))

-- A store in a slot that is not in use.
collect-upd :
    (ops : ℕ → ℕ) (p v n k : ℕ)
    → k + n ≤ p
    → p < k + queue_max_size
    → collect (upd ops (p % queue_max_size) v) k n ≡ collect ops k n
unfolding collect
collect-upd ops p v zero k lo hi = refl
collect-upd ops p v (suc n) k lo hi =
    ground (arith, collect-upd ops p v n (k + 1) (omega arith) (omega arith))

Stutters-refl : (s : System) → Stutters s s
Stutters-refl s = record { same = refl; none_lent = λ d h. h; none_held = λ i o h. h }

lock-Stutters :
    (spin : Option Thread) (t : Thread) (got s : System)
    → Stutters s got
    → Stutters s (lock spin t got s)
lock-Stutters none t got s g = record {
  same = g.same;
  none_lent = g.none_lent;
  none_held = g.none_held;
}
lock-Stutters (some x) t got s g = Stutters-refl s

-- A step of a client that does not put its operation in the ring, and one of a server that does not
-- take one.
client-Stutters :
    (s t : System) (c : ℕ) (pc : Client)
    → t.client ≡ upd s.client c pc
    → t.server ≡ s.server
    → pending t ≡ pending s
    → (lends pc ≡ true → lends (s.client c) ≡ true)
    → Stutters s t
client-Stutters s t c pc e e' same lent = record {
  same = same;
  none_lent = λ d h. ground (arith, ap (λ (g : ℕ → Client). g d) e, lent);
  none_held = λ i o h. rw (sym e') h;
}

server-Stutters :
    (s t : System) (j : ℕ) (pc : Server)
    → t.server ≡ upd s.server j pc
    → t.client ≡ s.client
    → pending t ≡ pending s
    → ((o : ℕ) → held pc ≡ some o → held (s.server j) ≡ some o)
    → Stutters s t
server-Stutters s t j pc e e' same got = record {
  same = same;
  none_lent = λ d h. rw (sym e') h;
  none_held = λ i o h. ground (arith, ap (λ (g : ℕ → Server). g i) e, got o);
}

module _ (s : System) (inv : Inv s) (in_range : s.puts ≤ int_max) where
  goes :
      (c : ℕ) (pc : Client)
      → (lends pc ≡ true → lends (s.client c) ≡ true)
      → FifoStep (run_client c) s (go_client c pc s)
  goes c pc lent = stutter (client-Stutters s _ c pc refl refl refl lent)

  moves :
      (j : ℕ) (pc : Server)
      → ((o : ℕ) → held pc ≡ some o → held (s.server j) ≡ some o)
      → FifoStep (run_server j) s (go_server j pc s)
  moves j pc got = stutter (server-Stutters s _ j pc refl refl refl got)

  pushed :
      (c : ℕ)
      → s.client c ≡ Client.bump
      → collect s.ops s.gets (s.puts + 1 - s.gets) ≡ pending s ++ c ∷ []
  pushed c e = ground (arith, collect-suc s.ops (s.puts - s.gets) s.gets, inv.stored c e, inv.order)

  popped :
      (j o : ℕ)
      → s.server j ≡ Server.bump o
      → pending s ≡ o ∷ collect s.ops (s.gets + 1) (s.puts - (s.gets + 1))
  unfolding collect
  popped j o e =
      let n : s.puts - s.gets ≡ suc (s.puts - (s.gets + 1)) = ground (arith, inv.taken j o e) in
      rw n (ground (arith, inv.taken j o e))

  client_step-FifoStep :
      (c : ℕ) (pc : Client) → s.client c ≡ pc → FifoStep (run_client c) s (client_step c s pc)
  unfolding client_step
  client_step-FifoStep c Client.poll e = goes c (Client.polled s.puts) (λ h. cc)
  client_step-FifoStep c (Client.polled p) e = elim (Bool-cases (leb queue_max_size (p - s.gets))) [
    | inl full ↦ rw full (goes c Client.poll (λ h. cc))
    | inr room ↦ rw room (goes c Client.acquire (λ h. cc))
  ]
  client_step-FifoStep c Client.acquire e = stutter (
      lock-Stutters s.spin (client c) (go_client c Client.test s) s
        (client-Stutters s _ c Client.test refl refl refl (λ h. cc)))
  client_step-FifoStep c Client.test e = elim (Bool-cases (is_full s)) [
    | inl full ↦ rw full (goes c Client.retreat (λ h. cc))
    | inr room ↦ rw room (goes c Client.store (λ h. cc))
  ]
  client_step-FifoStep c Client.store e = stutter (
      client-Stutters s _ c Client.bump refl refl
        (collect-upd s.ops s.puts c (s.puts - s.gets) s.gets (omega (arith, inv.order))
          (inv.may_store c e))
        (λ h. cc))
  client_step-FifoStep c Client.bump e = elim (Bool-cases (s.puts == int_max)) [
    | inl over ↦ rw over (overflow ((==_iff s.puts int_max).0 over) refl)
    | inr counts ↦ rw counts (
        push c refl (record {
          room = ground (arith, length-collect s.ops (s.puts - s.gets) s.gets, inv.stored c e);
          in_range = ground (arith, in_range);
          pushed = pushed c e;
          lent = ground arith;
          others = λ d ne. ground arith;
          same_servers = refl;
        }))
  ]
  client_step-FifoStep c Client.wait e = elim (Bool-cases (s.op c).done) [
    | inl done ↦ rw done (goes c Client.finish (λ h. cc))
    | inr more ↦ rw more (stutter (Stutters-refl s))
  ]
  client_step-FifoStep c Client.idle e = stutter (Stutters-refl s)
  client_step-FifoStep c Client.begin e =
      stutter (client-Stutters s _ c Client.poll refl refl refl (λ h. cc))
  client_step-FifoStep c Client.retreat e =
      stutter (client-Stutters s _ c Client.poll refl refl refl (λ h. cc))
  client_step-FifoStep c Client.leave e =
      stutter (client-Stutters s _ c Client.wait refl refl refl (λ h. ground (arith, e)))
  client_step-FifoStep c Client.finish e = goes c (Client.returned (s.op c).err) (λ h. cc)
  client_step-FifoStep c (Client.returned r) e = stutter (Stutters-refl s)

  server_step-FifoStep :
      (j : ℕ) (pc : Server) → s.server j ≡ pc → FifoStep (run_server j) s (server_step j s pc)
  unfolding server_step
  server_step-FifoStep j Server.poll e = moves j (Server.polled s.puts) (λ o h. cc)
  server_step-FifoStep j (Server.polled p) e = elim (Bool-cases (leb p s.gets)) [
    | inl none_left ↦ rw none_left (moves j Server.poll (λ o h. cc))
    | inr more ↦ rw more (moves j Server.acquire (λ o h. cc))
  ]
  server_step-FifoStep j Server.acquire e = stutter (
      lock-Stutters s.spin (server j) (go_server j Server.test s) s
        (server-Stutters s _ j Server.test refl refl refl (λ o h. cc)))
  server_step-FifoStep j Server.test e = elim (Bool-cases (is_empty s)) [
    | inl none_left ↦ rw none_left (moves j Server.retreat (λ o h. cc))
    | inr more ↦ rw more (moves j Server.take (λ o h. cc))
  ]
  server_step-FifoStep j (Server.bump o) e = pop j refl (record {
    first = o;
    popped = popped j o e;
    had_none = ground (arith, e);
    has = ground arith;
    others = λ i ne. ground arith;
    same_clients = refl;
  })
  server_step-FifoStep j Server.retreat e =
      stutter (server-Stutters s _ j Server.poll refl refl refl (λ o h. cc))
  server_step-FifoStep j Server.take e =
      moves j (Server.bump (s.ops (s.gets % queue_max_size))) (λ o h. cc)
  server_step-FifoStep j (Server.leave o) e =
      stutter (server-Stutters s _ j (Server.working o) refl refl refl (λ x h. ground (arith, e)))
  server_step-FifoStep j (Server.working o) e = stutter (Stutters-refl s)
  server_step-FifoStep j (Server.answer o y) e =
      stutter (server-Stutters s _ j (Server.finish o) refl refl refl (λ x h. ground (arith, e)))
  server_step-FifoStep j (Server.finish o) e =
      stutter (server-Stutters s _ j Server.poll refl refl refl (λ x h. cc))

  call_step-Stutters : (c : ℕ) (r : Request) (pc : Client) → Stutters s (call_step c r s pc)
  unfolding call_step
  call_step-Stutters c r Client.idle = client-Stutters s _ c Client.begin refl refl refl (λ h. cc)
  call_step-Stutters c r (Client.returned x) =
      client-Stutters s _ c Client.begin refl refl refl (λ h. cc)
  call_step-Stutters c r Client.begin = Stutters-refl s
  call_step-Stutters c r Client.poll = Stutters-refl s
  call_step-Stutters c r (Client.polled p) = Stutters-refl s
  call_step-Stutters c r Client.acquire = Stutters-refl s
  call_step-Stutters c r Client.test = Stutters-refl s
  call_step-Stutters c r Client.retreat = Stutters-refl s
  call_step-Stutters c r Client.store = Stutters-refl s
  call_step-Stutters c r Client.bump = Stutters-refl s
  call_step-Stutters c r Client.leave = Stutters-refl s
  call_step-Stutters c r Client.wait = Stutters-refl s
  call_step-Stutters c r Client.finish = Stutters-refl s

  answer_step-Stutters :
      (j : ℕ) (x : ℤ) (pc : Server) → s.server j ≡ pc → Stutters s (answer_step j x s pc)
  unfolding answer_step
  answer_step-Stutters j x (Server.working o) e =
      server-Stutters s _ j (Server.answer o x) refl refl refl (λ y h. ground (arith, e))
  answer_step-Stutters j x Server.poll e = Stutters-refl s
  answer_step-Stutters j x (Server.polled p) e = Stutters-refl s
  answer_step-Stutters j x Server.acquire e = Stutters-refl s
  answer_step-Stutters j x Server.test e = Stutters-refl s
  answer_step-Stutters j x Server.retreat e = Stutters-refl s
  answer_step-Stutters j x Server.take e = Stutters-refl s
  answer_step-Stutters j x (Server.bump o) e = Stutters-refl s
  answer_step-Stutters j x (Server.leave o) e = Stutters-refl s
  answer_step-Stutters j x (Server.answer o y) e = Stutters-refl s
  answer_step-Stutters j x (Server.finish o) e = Stutters-refl s

act-FifoStep : (s : System) (e : Event) → Inv s → s.puts ≤ int_max → FifoStep e s (act e s)
unfolding act
act-FifoStep s (run_client c) inv le = client_step-FifoStep s inv le c (s.client c) refl
act-FifoStep s (run_server j) inv le = server_step-FifoStep s inv le j (s.server j) refl
act-FifoStep s (call c q) inv le = stutter (call_step-Stutters s inv le c q (s.client c))
act-FifoStep s (reply j x) inv le = stutter (answer_step-Stutters s inv le j x (s.server j) refl)

-- Every step from a state that is reached with no overflow does one of four things. It leaves the
-- queue of the operations in the ring, lends no client's operation and gives none to a server; or
-- it puts the operation of the client that takes the step at the end, where the queue has less
-- than QUEUE_MAX_SIZE and less than INT_MAX have been put, lends it and changes no other thread;
-- or it takes the first operation and gives it to the server that takes the step, which had none,
-- and changes no other thread; or INT_MAX operations have been put, and the counter overflows.
pub step-FifoStep : (s : System) (e : Event) → Reachable s → FifoStep e s (step e s)
step-FifoStep s e r =
    let acts = act-FifoStep s e (Reachable-Inv r) (Reachable-bounds s r).2 in
    elim (step-cases e s) [
      | inl stopped ↦ subst (FifoStep e s) (sym stopped) (stutter (Stutters-refl s))
      | inr goes ↦ subst (FifoStep e s) (sym goes) acts
    ]
