-- ===== src/Hslib/Opfuse/Calls.antt =====
-- A call of a handler of src/hslib/opfuse.c through the queue of opqueue.c and back.
use fscq.Base.{
  ℕ, ◌+◌, ◌<◌, ◌≡◌, refl, Bool, true, false, ◌⊎◌, inl, inr, List, [], ◌∷◌, arith, some, none,
  Option, ℤ,
}
use fscq.Hslib.Opqueue.{
  System, Client, Server, Thread, client, server, Event, run_client, run_server, call, reply, step,
  act, int_max, run, client_step, server_step, call_step, answer_step,
}
use fscq.Hslib.Opqueue.Operations.{Request, Member, tag}
use fscq.Hslib.Opqueue.Invariant.{slot}
use fscq.Hslib.Opfuse.{Callback, opfuse_oper}

-- What the server is to see of a callback: the member of its name, with the arguments of FUSE in the
-- order of the fields of the header.
abbrev wanted : Callback → Member
wanted (Callback.getattr path stbuf) = Member.getattr path stbuf
wanted (Callback.mknod path mode rdev) = Member.mknod path mode rdev
wanted (Callback.mkdir path mode) = Member.mkdir path mode
wanted (Callback.unlink path) = Member.unlink path
wanted (Callback.rmdir path) = Member.rmdir path
wanted (Callback.open_file path fi) = Member.open_file path fi
wanted (Callback.release path fi) = Member.release path fi
wanted (Callback.read path buf size offset fi) = Member.read path buf size offset fi
wanted (Callback.write path buf size offset fi) = Member.write path buf size offset fi
wanted (Callback.fsync path isdatasync fi) = Member.fsync path isdatasync fi
wanted (Callback.fsyncdir path isdatasync fi) = Member.fsyncdir path isdatasync fi
wanted (Callback.truncate path size) = Member.truncate path size
wanted (Callback.rename from to) = Member.rename from to
wanted (Callback.chmod path mode) = Member.chmod path mode
wanted (Callback.statfs path stbuf) = Member.statfs path stbuf
wanted (Callback.opendir path fi) = Member.opendir path fi
wanted (Callback.readdir path buf filler offset fi) = Member.readdir path buf filler offset fi
wanted (Callback.releasedir path fi) = Member.releasedir path fi
wanted (Callback.utime path buf) = Member.utime path buf
wanted (Callback.destroy arg) = Member.destroy
wanted (Callback.create path mode info) = Member.create path mode info

-- Each handler calls `execute` with what the server is to see.
pub opfuse_oper-wanted :
    (c : ℕ) (k : Callback)
    → opfuse_oper c k ≡ call c (record { op_type = tag (wanted k); u = wanted k })
unfolding opfuse_oper
opfuse_oper-wanted c (Callback.getattr path stbuf) = refl
opfuse_oper-wanted c (Callback.mknod path mode rdev) = refl
opfuse_oper-wanted c (Callback.mkdir path mode) = refl
opfuse_oper-wanted c (Callback.unlink path) = refl
opfuse_oper-wanted c (Callback.rmdir path) = refl
opfuse_oper-wanted c (Callback.open_file path fi) = refl
opfuse_oper-wanted c (Callback.release path fi) = refl
opfuse_oper-wanted c (Callback.read path buf size offset fi) = refl
opfuse_oper-wanted c (Callback.write path buf size offset fi) = refl
opfuse_oper-wanted c (Callback.fsync path isdatasync fi) = refl
opfuse_oper-wanted c (Callback.fsyncdir path isdatasync fi) = refl
opfuse_oper-wanted c (Callback.truncate path size) = refl
opfuse_oper-wanted c (Callback.rename from to) = refl
opfuse_oper-wanted c (Callback.chmod path mode) = refl
opfuse_oper-wanted c (Callback.statfs path stbuf) = refl
opfuse_oper-wanted c (Callback.opendir path fi) = refl
opfuse_oper-wanted c (Callback.readdir path buf filler offset fi) = refl
opfuse_oper-wanted c (Callback.releasedir path fi) = refl
opfuse_oper-wanted c (Callback.utime path buf) = refl
opfuse_oper-wanted c (Callback.destroy arg) = refl
opfuse_oper-wanted c (Callback.create path mode info) = refl

-- The schedule that takes the operation to the server, after the call has begun.
abbrev pub handing : ℕ → ℕ → List Event
handing c j =
    run_client c
    ∷ run_client c
    ∷ run_client c
    ∷ run_client c
    ∷ run_client c
    ∷ run_client c
    ∷ run_client c
    ∷ run_client c
    ∷ run_server j
    ∷ run_server j
    ∷ run_server j
    ∷ run_server j
    ∷ run_server j
    ∷ run_server j
    ∷ run_server j
    ∷ []

-- The steps of a client up to `q.puts++`.
abbrev pub storing : ℕ → List Event
storing c =
    run_client c ∷ run_client c ∷ run_client c ∷ run_client c ∷ run_client c ∷ run_client c ∷ []

-- The schedule that takes the reply back.
abbrev pub replying : ℕ → ℕ → ℤ → List Event
replying c j x = reply j x ∷ run_server j ∷ run_server j ∷ run_client c ∷ run_client c ∷ []

module _ (c j : ℕ) (r : Request) (x : ℤ) (p : ℕ) where
  -- Where the client and the server stand, who has the lock, how many operations are in the ring and
  -- have been put in it, whether the first is the client's, whether that is done, and whether it has
  -- the reply.
  pub record At (s : System) (cp : Client) (sp : Server) (spin : Option Thread) (n puts : ℕ)
      (first done replied : Bool) : Type 0 where
    pub facts :
        (s.client c ≡ cp)
        × (s.server j ≡ sp)
        × (s.spin ≡ spin)
        × (s.puts ≡ s.gets + n)
        × (s.puts ≡ puts)
        × (s.overflowed ≡ false)
        × ((s.op c).request ≡ r)
        × ((s.op c).done ≡ done)
        × (first ≡ true → slot s s.gets ≡ c)
        × (replied ≡ true → (s.op c).err ≡ x)

  step0 :
      (d : Bool) (s : System)
      → At s Client.begin Server.poll none 0 p false d false
      → At (step (run_client c) s) Client.poll Server.poll none 0 p false false false
  unfolding step act client_step server_step answer_step
  step0 d s a = record { facts = ground (arith, a.facts) }

  step1 :
      (s : System)
      → At s Client.poll Server.poll none 0 p false false false
      → At (step (run_client c) s) (Client.polled p) Server.poll none 0 p false false false
  unfolding step act client_step server_step answer_step
  step1 s a = record { facts = ground (arith, a.facts) }

  step2 :
      (s : System)
      → At s (Client.polled p) Server.poll none 0 p false false false
      → At (step (run_client c) s) Client.acquire Server.poll none 0 p false false false
  unfolding step act client_step server_step answer_step
  step2 s a = record { facts = ground (arith, a.facts) }

  step3 :
      (s : System)
      → At s Client.acquire Server.poll none 0 p false false false
      → At (step (run_client c) s) Client.test Server.poll (some (client c)) 0 p false false false
  unfolding step act client_step server_step answer_step
  step3 s a = record { facts = ground (arith, a.facts) }

  step4 :
      (s : System)
      → At s Client.test Server.poll (some (client c)) 0 p false false false
      → At (step (run_client c) s) Client.store Server.poll (some (client c)) 0 p false false false
  unfolding step act client_step server_step answer_step
  step4 s a = record { facts = ground (arith, a.facts) }

  step5 :
      (s : System)
      → At s Client.store Server.poll (some (client c)) 0 p false false false
      → At (step (run_client c) s) Client.bump Server.poll (some (client c)) 0 p true false false
  unfolding step act client_step server_step answer_step
  step5 s a = record { facts = ground (arith, a.facts) }

  step6 :
      (s : System)
      → p < int_max
      → At s Client.bump Server.poll (some (client c)) 0 p true false false
      → At
          (step (run_client c) s)
          Client.leave
          Server.poll
          (some (client c))
          1
          (p + 1)
          true
          false
          false
  unfolding step act client_step server_step answer_step
  step6 s fits a = record { facts = ground (arith, a.facts) }

  step7 :
      (s : System)
      → At s Client.leave Server.poll (some (client c)) 1 (p + 1) true false false
      → At (step (run_client c) s) Client.wait Server.poll none 1 (p + 1) true false false
  unfolding step act client_step server_step answer_step
  step7 s a = record { facts = ground (arith, a.facts) }

  step8 :
      (s : System)
      → At s Client.wait Server.poll none 1 (p + 1) true false false
      → At
          (step (run_server j) s)
          Client.wait
          (Server.polled (p + 1))
          none
          1
          (p + 1)
          true
          false
          false
  unfolding step act client_step server_step answer_step
  step8 s a = record { facts = ground (arith, a.facts) }

  step9 :
      (s : System)
      → At s Client.wait (Server.polled (p + 1)) none 1 (p + 1) true false false
      → At (step (run_server j) s) Client.wait Server.acquire none 1 (p + 1) true false false
  unfolding step act client_step server_step answer_step
  step9 s a = record { facts = ground (arith, a.facts) }

  step10 :
      (s : System)
      → At s Client.wait Server.acquire none 1 (p + 1) true false false
      → At
          (step (run_server j) s)
          Client.wait
          Server.test
          (some (server j))
          1
          (p + 1)
          true
          false
          false
  unfolding step act client_step server_step answer_step
  step10 s a = record { facts = ground (arith, a.facts) }

  step11 :
      (s : System)
      → At s Client.wait Server.test (some (server j)) 1 (p + 1) true false false
      → At
          (step (run_server j) s)
          Client.wait
          Server.take
          (some (server j))
          1
          (p + 1)
          true
          false
          false
  unfolding step act client_step server_step answer_step
  step11 s a = record { facts = ground (arith, a.facts) }

  step12 :
      (s : System)
      → At s Client.wait Server.take (some (server j)) 1 (p + 1) true false false
      → At
          (step (run_server j) s)
          Client.wait
          (Server.bump c)
          (some (server j))
          1
          (p + 1)
          true
          false
          false
  unfolding step act client_step server_step answer_step
  step12 s a = record { facts = ground (arith, a.facts) }

  step13 :
      (s : System)
      → At s Client.wait (Server.bump c) (some (server j)) 1 (p + 1) true false false
      → At
          (step (run_server j) s)
          Client.wait
          (Server.leave c)
          (some (server j))
          0
          (p + 1)
          false
          false
          false
  unfolding step act client_step server_step answer_step
  step13 s a = record { facts = ground (arith, a.facts) }

  step14 :
      (s : System)
      → At s Client.wait (Server.leave c) (some (server j)) 0 (p + 1) false false false
      → At (step (run_server j) s) Client.wait (Server.working c) none 0 (p + 1) false false false
  unfolding step act client_step server_step answer_step
  step14 s a = record { facts = ground (arith, a.facts) }

  step15 :
      (s : System)
      → At s Client.wait (Server.working c) none 0 (p + 1) false false false
      → At (step (reply j x) s) Client.wait (Server.answer c x) none 0 (p + 1) false false false
  unfolding step act client_step server_step answer_step
  step15 s a = record { facts = ground (arith, a.facts) }

  step16 :
      (s : System)
      → At s Client.wait (Server.answer c x) none 0 (p + 1) false false false
      → At (step (run_server j) s) Client.wait (Server.finish c) none 0 (p + 1) false false true
  unfolding step act client_step server_step answer_step
  step16 s a = record { facts = ground (arith, a.facts) }

  step17 :
      (s : System)
      → At s Client.wait (Server.finish c) none 0 (p + 1) false false true
      → At (step (run_server j) s) Client.wait Server.poll none 0 (p + 1) false true true
  unfolding step act client_step server_step answer_step
  step17 s a = record { facts = ground (arith, a.facts) }

  step18 :
      (s : System)
      → At s Client.wait Server.poll none 0 (p + 1) false true true
      → At (step (run_client c) s) Client.finish Server.poll none 0 (p + 1) false true true
  unfolding step act client_step server_step answer_step
  step18 s a = record { facts = ground (arith, a.facts) }

  step19 :
      (s : System)
      → At s Client.finish Server.poll none 0 (p + 1) false true true
      → At (step (run_client c) s) (Client.returned x) Server.poll none 0 (p + 1) false true true
  unfolding step act client_step server_step answer_step
  step19 s a = record { facts = ground (arith, a.facts) }

  pub putting :
      (d : Bool) (s : System)
      → At s Client.begin Server.poll none 0 p false d false
      → At (run (storing c) s) Client.bump Server.poll (some (client c)) 0 p true false false
  unfolding run
  putting d s a = step5 _ (step4 _ (step3 _ (step2 _ (step1 _ (step0 d s a)))))

  handed :
      (d : Bool) (s : System)
      → p < int_max
      → At s Client.begin Server.poll none 0 p false d false
      → At (run (handing c j) s) Client.wait (Server.working c) none 0 (p + 1) false false false
  unfolding run
  handed d s fits a = step14 _ (
      step13 _ (
        step12 _
          (step11 _ (step10 _ (step9 _ (step8 _ (step7 _ (step6 _ fits (putting d s a)))))))))

  replied_to :
      (s : System)
      → At s Client.wait (Server.working c) none 0 (p + 1) false false false
      → At (run (replying c j x) s) (Client.returned x) Server.poll none 0 (p + 1) false true true
  unfolding run
  replied_to s a = step19 _ (step18 _ (step17 _ (step16 _ (step15 s a))))

  -- At INT_MAX, the client's next step is the overflow.
  pub overflows :
      (s : System)
      → p ≡ int_max
      → At s Client.bump Server.poll (some (client c)) 0 p true false false
      → (step (run_client c) s).overflowed ≡ true
  unfolding step act client_step
  overflows s e a = ground (arith, a.facts, e)

-- Client `c` is in no call, server `j` looks for an operation, the lock is free, the ring empty, and
-- nothing has overflowed.
pub record IsQuiet (c j : ℕ) (s : System) : Type 0 where
  pub no_call : (s.client c ≡ Client.idle) ⊎ ((y : ℤ) × (s.client c ≡ Client.returned y))
  pub seeking : s.server j ≡ Server.poll
  pub unlocked : s.spin ≡ none
  pub drained : s.puts ≡ s.gets
  pub runs : s.overflowed ≡ false

pub begun :
    (c j : ℕ) (r : Request) (x : ℤ) (s : System)
    → IsQuiet c j s
    → At c j r x s.puts
        (step (call c r) s)
        Client.begin
        Server.poll
        none
        0
        s.puts
        false
        (s.op c).done
        false
unfolding step act call_step
begun c j r x s q = elim q.no_call [
  | inl e ↦ record { facts = ground (arith, e, q.seeking, q.unlocked, q.drained, q.runs) }
  | inr (y, e) ↦ record { facts = ground (arith, e, q.seeking, q.unlocked, q.drained, q.runs) }
]

-- The request of a callback.
abbrev pub asked : Callback → Request
asked k = record { op_type = tag (wanted k); u = wanted k }

-- What the schedules do with a call.
pub record Served (c j : ℕ) (k : Callback) (x : ℤ) (s given back : System) : Type 0 where
  pub has : given.server j ≡ Server.working c
  pub request : (given.op c).request ≡ asked k
  pub returns : back.client c ≡ Client.returned x
  pub counted : back.puts ≡ s.puts + 1
  pub quiet : IsQuiet c j back

-- From a state in which client `c` is in no call, server `j` looks for an operation, the lock is
-- free, the ring empty, nothing has overflowed and less than INT_MAX operations have been put:
-- when FUSE calls a handler in `c`, a schedule takes to server `j` the operation of the name of
-- the callback with the arguments of the call, and after the reply `x` of `j` `execute` returns
-- `x` in `c`, in such a state again with one operation more put.
pub opfuse_oper-returns :
    (c j : ℕ) (k : Callback) (x : ℤ) (s : System)
    → IsQuiet c j s
    → s.puts < int_max
    → Served c j k x s
        (run (opfuse_oper c k ∷ handing c j) s)
        (run (replying c j x) (run (opfuse_oper c k ∷ handing c j) s))
unfolding run
opfuse_oper-returns c j k x s q fits =
    let a =
      handed c j (asked k) x s.puts _ (step (call c (asked k)) s) fits
        (begun c j (asked k) x s q) in
    let b = replied_to c j (asked k) x s.puts _ a in
    rw (opfuse_oper-wanted c k) (record {
      has = a.facts.1;
      request = a.facts.6;
      returns = b.facts.0;
      counted = b.facts.4;
      quiet = record {
        no_call = inr (x, b.facts.0);
        seeking = b.facts.1;
        unlocked = b.facts.2;
        drained = ground (arith, b.facts.3);
        runs = b.facts.5;
      };
    })
