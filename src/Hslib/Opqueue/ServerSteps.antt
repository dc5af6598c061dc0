-- ===== src/Hslib/Opqueue/ServerSteps.antt =====
-- A step of a server keeps the invariant of the ring.
use fscq.Base.{
  ℕ, leb, ◌<◌, ◌≡◌, ◌≢◌, refl, true, ℤ, Option, none, some, arith, Bool-cases, inl, inr,
}
use fscq.Hslib.Opqueue.{
  System, Server, Thread, client, server, is_empty, go_server, server_step, answer_step,
}
use fscq.Hslib.Opqueue.Invariant.{server_locks, held, slot, Inv, lock-Inv}

-- A step that takes server `j` on to `pc`, and leaves all but the lock as it is.
record IsQuiet (s : System) (j : ℕ) (pc : Server) (spin : Option Thread) : Type 0 where
  locks : server_locks pc ≡ true → spin ≡ some (server j)
  others : (t : Thread) → t ≢ server j → s.spin ≡ some t → spin ≡ some t
  holding : held pc ≡ held (s.server j)
  has_some : pc ≡ Server.take → s.gets < s.puts
  taking : (o : ℕ) → pc ≡ Server.bump o → (s.gets < s.puts) × (slot s s.gets ≡ o)

module _ (j : ℕ) (s : System) (inv : Inv s) where
  quiet-Inv :
      (pc : Server) (spin : Option Thread)
      → IsQuiet s j pc spin
      → Inv (go_server j pc (record s { spin = spin }))
  quiet-Inv pc spin q = record {
    order = inv.order;
    room = inv.room;
    by_client = λ d h. ground (arith, inv.by_client d h, q.others (client d));
    by_server = λ i h. ground (arith, inv.by_server i, q.locks, q.others (server i));
    cleared = inv.cleared;
    may_store = inv.may_store;
    stored = inv.stored;
    may_take = λ i h. ground (arith, inv.may_take i, q.has_some);
    taken = λ i o h. ground (arith, inv.taken i o, q.taking o);
    queued = inv.queued;
    queued_once = inv.queued_once;
    worked_on = λ i o h. ground (arith, inv.worked_on i o, inv.worked_on j o, q.holding);
    held_once = λ i i' o h h'.
        ground (arith, inv.held_once i i' o, inv.held_once i j o, inv.held_once j i' o, q.holding);
    apart = λ i o k h lo hi. ground (arith, inv.apart i o k, inv.apart j o k, q.holding, lo, hi);
  }

  bump-Inv : (o : ℕ) → s.server j ≡ Server.bump o → Inv (server_step j s (Server.bump o))
  unfolding server_step
  bump-Inv o e = record {
    order = ground (arith, inv.taken j o e);
    room = ground (arith, inv.room);
    by_client = inv.by_client;
    by_server = λ i h. ground (arith, inv.by_server i, inv.by_server j);
    cleared = inv.cleared;
    may_store = λ c h. ground (arith, inv.may_store c h);
    stored = λ c h. ground (arith, inv.stored c h);
    may_take = λ i h. ground (arith, inv.by_server i, inv.by_server j);
    taken = λ i x h. ground (arith, inv.by_server i, inv.by_server j);
    queued = λ k lo hi. inv.queued k (omega arith) hi;
    queued_once = λ k l lo hi lo' hi' eq. inv.queued_once k l (omega arith) hi (omega arith) hi' eq;
    worked_on = λ i x h. ground (arith, inv.worked_on i x, inv.queued s.gets, inv.taken j o e);
    held_once = λ i i' x h h'.
        ground (
          arith,
          inv.held_once i i' x,
          inv.apart i x s.gets,
          inv.apart i' x s.gets,
          inv.taken j o e,
        );
    apart = λ i x k h lo hi eq.
        ground (arith, inv.apart i x k, inv.queued_once k s.gets, inv.taken j o e, lo, hi);
  }

  answer-Inv :
      (o : ℕ) (x : ℤ) → s.server j ≡ Server.answer o x → Inv (server_step j s (Server.answer o x))
  unfolding server_step
  answer-Inv o x e = record {
    order = inv.order;
    room = inv.room;
    by_client = inv.by_client;
    by_server = λ i h. ground (arith, inv.by_server i);
    cleared = λ c h. ground (arith, inv.cleared c);
    may_store = inv.may_store;
    stored = inv.stored;
    may_take = λ i h. ground (arith, inv.may_take i);
    taken = λ i y h. ground (arith, inv.taken i y);
    queued = λ k lo hi. ground (arith, inv.queued k lo hi);
    queued_once = inv.queued_once;
    worked_on = λ i y h. ground (arith, inv.worked_on i y, inv.worked_on j o);
    held_once = λ i i' y h h'.
        ground (arith, inv.held_once i i' y, inv.held_once i j y, inv.held_once j i' y);
    apart = λ i y k h lo hi. ground (arith, inv.apart i y k, inv.apart j o k, lo, hi);
  }

  finish-Inv : (o : ℕ) → s.server j ≡ Server.finish o → Inv (server_step j s (Server.finish o))
  unfolding server_step
  finish-Inv o e = record {
    order = inv.order;
    room = inv.room;
    by_client = inv.by_client;
    by_server = λ i h. ground (arith, inv.by_server i);
    cleared = λ c h. ground (arith, inv.cleared c, inv.worked_on j o);
    may_store = inv.may_store;
    stored = inv.stored;
    may_take = λ i h. ground (arith, inv.may_take i);
    taken = λ i y h. ground (arith, inv.taken i y);
    queued = λ k lo hi. ground (arith, inv.queued k lo hi, inv.apart j o k);
    queued_once = inv.queued_once;
    worked_on = λ i y h. ground (arith, inv.worked_on i y, inv.held_once i j y);
    held_once = λ i i' y h h'. ground (arith, inv.held_once i i' y);
    apart = λ i y k h lo hi. ground (arith, inv.apart i y k, lo, hi);
  }

  -- A step of a server that has nothing.
  seeking :
      (pc : Server) (spin : Option Thread)
      → (server_locks pc ≡ true → spin ≡ some (server j))
      → ((t : Thread) → t ≢ server j → s.spin ≡ some t → spin ≡ some t)
      → held pc ≡ held (s.server j)
      → (pc ≡ Server.take → s.gets < s.puts)
      → ((o : ℕ) → pc ≢ Server.bump o)
      → Inv (go_server j pc (record s { spin = spin }))
  seeking pc spin locks others same some_left not_bump = quiet-Inv pc spin (record {
    locks = locks;
    others = others;
    holding = same;
    has_some = some_left;
    taking = λ o h. absurd (not_bump o h);
  })

  pub server_step-Inv : (pc : Server) → s.server j ≡ pc → Inv (server_step j s pc)
  unfolding server_step
  server_step-Inv Server.poll e =
      seeking (Server.polled s.puts) s.spin (λ h. cc) (λ t ne h. h) (ground arith) (λ h. cc)
        (λ o h. cc)
  server_step-Inv (Server.polled p) e = elim (Bool-cases (leb p s.gets)) [
    | inl none_left ↦
        rw none_left
          (seeking Server.poll s.spin (λ h. cc) (λ t ne h. h) (ground arith) (λ h. cc) (λ o h. cc))
    | inr more ↦
        rw more (
          seeking Server.acquire s.spin (λ h. cc) (λ t ne h. h) (ground arith) (λ h. cc)
            (λ o h. cc))
  ]
  server_step-Inv Server.acquire e =
      lock-Inv s.spin (server j) (go_server j Server.test s) s
        (λ free.
          seeking Server.test (some (server j)) (λ h. refl) (λ t ne h. cc) (ground arith) (λ h. cc)
            (λ o h. cc))
        inv
  server_step-Inv Server.test e = elim (Bool-cases (is_empty s)) [
    | inl none_left ↦ rw none_left (
        seeking Server.retreat s.spin (λ h. locked) (λ t ne h. h) (ground arith) (λ h. cc)
          (λ o h. cc))
    | inr more ↦ rw more (
        seeking Server.take s.spin (λ h. locked) (λ t ne h. h) (ground arith)
          (λ h. ground (arith, more)) (λ o h. cc))
  ]
    where
      locked : s.spin ≡ some (server j)
      locked = inv.by_server j (ground arith)
  server_step-Inv Server.retreat e =
      seeking Server.poll none (λ h. cc) (λ t ne h. ground (arith, inv.by_server j)) (ground arith)
        (λ h. cc) (λ o h. cc)
  server_step-Inv Server.take e = quiet-Inv (Server.bump (slot s s.gets)) s.spin (record {
    locks = λ h. inv.by_server j (ground arith);
    others = λ t ne h. h;
    holding = ground arith;
    has_some = λ h. cc;
    taking = λ o h. (inv.may_take j e, ground arith);
  })
  server_step-Inv (Server.bump o) e = bump-Inv o e
  server_step-Inv (Server.leave o) e =
      seeking (Server.working o) none (λ h. cc) (λ t ne h. ground (arith, inv.by_server j))
        (ground arith) (λ h. cc) (λ x h. cc)
  server_step-Inv (Server.working o) e = inv
  server_step-Inv (Server.answer o x) e = answer-Inv o x e
  server_step-Inv (Server.finish o) e = finish-Inv o e

  pub answer_step-Inv : (x : ℤ) (pc : Server) → s.server j ≡ pc → Inv (answer_step j x s pc)
  unfolding answer_step
  answer_step-Inv x (Server.working o) e =
      seeking (Server.answer o x) s.spin (λ h. cc) (λ t ne h. h) (ground arith) (λ h. cc)
        (λ y h. cc)
  answer_step-Inv x Server.poll e = inv
  answer_step-Inv x (Server.polled p) e = inv
  answer_step-Inv x Server.acquire e = inv
  answer_step-Inv x Server.test e = inv
  answer_step-Inv x Server.retreat e = inv
  answer_step-Inv x Server.take e = inv
  answer_step-Inv x (Server.bump o) e = inv
  answer_step-Inv x (Server.leave o) e = inv
  answer_step-Inv x (Server.answer o y) e = inv
  answer_step-Inv x (Server.finish o) e = inv
