-- ===== src/Hslib/Opqueue/ClientSteps.antt =====
-- A step of a client keeps the invariant of the ring.
use fscq.Base.{
  ℕ, leb, ◌-◌, ◌==◌, ◌+◌, ◌<◌, ◌≡◌, ◌≢◌, refl, Bool, true, false, Option, none, some, arith,
  Bool-cases, inl, inr,
}
use fscq.Machine.{upd}
use fscq.Hslib.Opqueue.{
  System, Client, Thread, client, server, queue_max_size, int_max, is_full, go_client, client_step,
  call_step,
}
use fscq.Hslib.Opqueue.Operations.{Request}
use fscq.Hslib.Opqueue.Invariant.{client_locks, lends, prepares, IsLent, Inv, lock-Inv}

-- A step that takes client `c` on to `pc`, and leaves all but the lock as it is.
record IsQuiet (s : System) (c : ℕ) (pc : Client) (spin : Option Thread) : Type 0 where
  locks : client_locks pc ≡ true → spin ≡ some (client c)
  others : (t : Thread) → t ≢ client c → s.spin ≡ some t → spin ≡ some t
  lent : IsLent s c → lends pc ≡ true
  prepared : prepares pc ≡ true → (s.op c).done ≡ false
  has_room : pc ≡ Client.store → s.puts < s.gets + queue_max_size
  not_bump : pc ≢ Client.bump

overflow-Inv : (s : System) → Inv s → Inv (record s { overflowed = true })
overflow-Inv s inv = record {
  order = inv.order;
  room = inv.room;
  by_client = inv.by_client;
  by_server = inv.by_server;
  cleared = inv.cleared;
  may_store = inv.may_store;
  stored = inv.stored;
  may_take = inv.may_take;
  taken = inv.taken;
  queued = inv.queued;
  queued_once = inv.queued_once;
  worked_on = inv.worked_on;
  held_once = inv.held_once;
  apart = inv.apart;
}

module _ (c : ℕ) (s : System) (inv : Inv s) where
  quiet-Inv :
      (pc : Client) (spin : Option Thread)
      → IsQuiet s c pc spin
      → Inv (go_client c pc (record s { spin = spin }))
  quiet-Inv pc spin q = record {
    order = inv.order;
    room = inv.room;
    by_client = λ d h. ground (arith, inv.by_client d, q.locks, q.others (client d));
    by_server = λ j h. ground (arith, inv.by_server j h, q.others (server j));
    cleared = λ d h. ground (arith, inv.cleared d, q.prepared);
    may_store = λ d h. ground (arith, inv.may_store d, q.has_room);
    stored = λ d h. ground (arith, inv.stored d, q.not_bump);
    may_take = inv.may_take;
    taken = inv.taken;
    queued = λ k lo hi. ground (arith, inv.queued k lo hi, q.lent);
    queued_once = inv.queued_once;
    worked_on = λ j o h. ground (arith, inv.worked_on j o h, q.lent);
    held_once = inv.held_once;
    apart = inv.apart;
  }

  -- The client's own operation changes while nobody has it.
  own-Inv :
      (pc : Client) (d : Bool) (r : Request)
      → lends (s.client c) ≡ false
      → client_locks pc ≡ false
      → (prepares pc ≡ true → d ≡ false)
      → Inv (
          go_client c pc (record s { op = upd s.op c (record (s.op c) { done = d; request = r }) }))
  own-Inv pc d r mine free prepared = record {
    order = inv.order;
    room = inv.room;
    by_client = λ x h. ground (arith, inv.by_client x);
    by_server = inv.by_server;
    cleared = λ x h. ground (arith, inv.cleared x);
    may_store = λ x h. ground (arith, inv.may_store x);
    stored = λ x h. ground (arith, inv.stored x);
    may_take = inv.may_take;
    taken = inv.taken;
    queued = λ k lo hi. ground (arith, inv.queued k lo hi);
    queued_once = inv.queued_once;
    worked_on = λ j o h. ground (arith, inv.worked_on j o h);
    held_once = inv.held_once;
    apart = inv.apart;
  }

  store-Inv : s.client c ≡ Client.store → Inv (client_step c s Client.store)
  unfolding client_step
  store-Inv e = record {
    order = inv.order;
    room = inv.room;
    by_client = λ d h. ground (arith, inv.by_client d, inv.by_client c);
    by_server = λ j h. ground (arith, inv.by_server j, inv.by_client c);
    cleared = λ d h. ground (arith, inv.cleared d, inv.cleared c);
    may_store = λ d h. ground (arith, inv.by_client d, inv.by_client c);
    stored = λ d h. ground (arith, inv.may_store c e, inv.by_client d, inv.by_client c);
    may_take = inv.may_take;
    taken = λ j o h. ground (arith, inv.by_server j, inv.by_client c);
    queued = λ k lo hi. ground (arith, inv.queued k lo hi, inv.may_store c e);
    queued_once = λ k l lo hi lo' hi' eq.
        ground (arith, inv.queued_once k l lo hi lo' hi', inv.may_store c e);
    worked_on = λ j o h. ground (arith, inv.worked_on j o h);
    held_once = inv.held_once;
    apart = λ j o k h lo hi eq. ground (arith, inv.apart j o k h lo hi, inv.may_store c e);
  }

  bump-Inv :
      s.client c ≡ Client.bump → Inv (go_client c Client.leave (record s { puts = s.puts + 1 }))
  bump-Inv e = record {
    order = ground (arith, inv.order);
    room = ground (arith, inv.stored c e);
    by_client = λ d h. ground (arith, inv.by_client d, inv.by_client c);
    by_server = inv.by_server;
    cleared = λ d h. ground (arith, inv.cleared d);
    may_store = λ d h. ground (arith, inv.by_client d, inv.by_client c);
    stored = λ d h. ground (arith, inv.by_client d, inv.by_client c);
    may_take = λ j h. ground (arith, inv.may_take j h);
    taken = λ j o h. ground (arith, inv.taken j o h);
    queued = λ k lo hi. ground (arith, inv.queued k lo, inv.cleared c, inv.stored c e);
    queued_once = λ k l lo hi lo' hi' eq.
        ground (arith, inv.queued_once k l lo, inv.queued k lo, inv.queued l lo', inv.stored c e);
    worked_on = λ j o h. ground (arith, inv.worked_on j o h);
    held_once = inv.held_once;
    apart = λ j o k h lo hi eq.
        ground (arith, inv.apart j o k h lo, inv.worked_on j o h, inv.stored c e);
  }

  -- A step between two places before the operation is in the ring.
  going :
      (pc : Client) (spin : Option Thread)
      → (client_locks pc ≡ true → spin ≡ some (client c))
      → ((t : Thread) → t ≢ client c → s.spin ≡ some t → spin ≡ some t)
      → (pc ≡ Client.store → s.puts < s.gets + queue_max_size)
      → pc ≢ Client.bump
      → prepares (s.client c) ≡ true
      → Inv (go_client c pc (record s { spin = spin }))
  going pc spin locks others room not_bump before = quiet-Inv pc spin (record {
    locks = locks;
    others = others;
    lent = λ h. ground arith;
    prepared = λ h. inv.cleared c before;
    has_room = room;
    not_bump = not_bump;
  })

  -- A step after the operation is done, or after its call.
  ending :
      (pc : Client)
      → (IsLent s c → ⊥)
      → client_locks pc ≡ false
      → prepares pc ≡ false
      → Inv (go_client c pc (record s { spin = s.spin }))
  ending pc done free after = quiet-Inv pc s.spin (record {
    locks = λ h. cc;
    others = λ t ne h. h;
    lent = λ h. absurd (done h);
    prepared = λ h. cc;
    has_room = λ h. ground arith;
    not_bump = λ h. ground arith;
  })

  pub client_step-Inv : (pc : Client) → s.client c ≡ pc → Inv (client_step c s pc)
  unfolding client_step
  client_step-Inv Client.idle e = inv
  client_step-Inv Client.begin e =
      own-Inv Client.poll false (s.op c).request (ground arith) refl (λ h. refl)
  client_step-Inv Client.poll e =
      going (Client.polled s.puts) s.spin (λ h. cc) (λ t ne h. h) (λ h. cc) (λ h. cc) (ground arith)
  client_step-Inv (Client.polled p) e = elim (Bool-cases (leb queue_max_size (p - s.gets))) [
    | inl full ↦
        rw full
          (going Client.poll s.spin (λ h. cc) (λ t ne h. h) (λ h. cc) (λ h. cc) (ground arith))
    | inr room ↦
        rw room
          (going Client.acquire s.spin (λ h. cc) (λ t ne h. h) (λ h. cc) (λ h. cc) (ground arith))
  ]
  client_step-Inv Client.acquire e =
      lock-Inv s.spin (client c) (go_client c Client.test s) s
        (λ free.
          going Client.test (some (client c)) (λ h. refl) (λ t ne h. cc) (λ h. cc) (λ h. cc)
            (ground arith))
        inv
  client_step-Inv Client.test e = elim (Bool-cases (is_full s)) [
    | inl full ↦ rw full (
        going Client.retreat s.spin (λ h. holding) (λ t ne h. h) (λ h. cc) (λ h. cc) (ground arith))
    | inr room ↦ rw room (
        going Client.store s.spin (λ h. holding) (λ t ne h. h) (λ h. ground (arith, room)) (λ h. cc)
          (ground arith))
  ]
    where
      holding : s.spin ≡ some (client c)
      holding = inv.by_client c (ground arith)
  client_step-Inv Client.retreat e =
      going Client.poll none (λ h. cc) (λ t ne h. ground (arith, inv.by_client c)) (λ h. cc)
        (λ h. cc) (ground arith)
  client_step-Inv Client.store e = store-Inv e
  client_step-Inv Client.bump e = elim (Bool-cases (s.puts == int_max)) [
    | inl over ↦ rw over (overflow-Inv s inv)
    | inr counts ↦ rw counts (bump-Inv e)
  ]
  client_step-Inv Client.leave e = quiet-Inv Client.wait none (record {
    locks = λ h. cc;
    others = λ t ne h. ground (arith, inv.by_client c);
    lent = λ h. refl;
    prepared = λ h. cc;
    has_room = λ h. cc;
    not_bump = λ h. cc;
  })
  client_step-Inv Client.wait e = elim (Bool-cases (s.op c).done) [
    | inl done ↦ rw done (ending Client.finish (λ h. ground arith) refl refl)
    | inr more ↦ rw more inv
  ]
  client_step-Inv Client.finish e =
      ending (Client.returned (s.op c).err) (λ h. ground arith) refl refl
  client_step-Inv (Client.returned r) e = inv

  pub call_step-Inv : (r : Request) (pc : Client) → s.client c ≡ pc → Inv (call_step c r s pc)
  unfolding call_step
  call_step-Inv r Client.idle e = own-Inv Client.begin (s.op c).done r (ground arith) refl (λ h. cc)
  call_step-Inv r (Client.returned x) e =
      own-Inv Client.begin (s.op c).done r (ground arith) refl (λ h. cc)
  call_step-Inv r Client.begin e = inv
  call_step-Inv r Client.poll e = inv
  call_step-Inv r (Client.polled p) e = inv
  call_step-Inv r Client.acquire e = inv
  call_step-Inv r Client.test e = inv
  call_step-Inv r Client.retreat e = inv
  call_step-Inv r Client.store e = inv
  call_step-Inv r Client.bump e = inv
  call_step-Inv r Client.leave e = inv
  call_step-Inv r Client.wait e = inv
  call_step-Inv r Client.finish e = inv
