-- ===== src/Hslib/Opqueue.antt =====
-- src/hslib/opqueue.c: client threads of FUSE in `execute`, server threads in `get_op` and
-- `send_result`, and the ring `q` between them. A step of a thread is one access to what the threads
-- share, in the order of the code; only the test under the lock reads both counters in one step, since
-- no other thread changes them then. The overflow of `q.puts++`, which C leaves undefined, ends the
-- run; `q.gets` stays at or below `q.puts`. The spin lock is `pthread_spin_lock` as it is documented: one
-- thread has it, and the others wait. The accesses are sequentially consistent.
pub mod IntRange
pub mod Replies
pub mod Fifo
pub mod Safety
pub mod ServerSteps
pub mod Invariant
pub mod ClientSteps
pub mod Operations
use fscq.Base.{
  ℕ, ◌≡◌, ◌+◌, ◌-◌, ◌%◌, Bool, true, false, ◌||◌, ◌==◌, leb, if◌then◌else◌, ℤ, Option, none, some,
  List, [], ◌∷◌,
}
use fscq.Machine.{upd}
use fscq.Hslib.Opqueue.Operations.{Request}

-- QUEUE_MAX_SIZE
abbrev pub queue_max_size : ℕ
queue_max_size = 256

-- struct operation, without the time stamps, which nothing uses.
pub record Operation : Type 0 where
  pub request : Request
  pub err : ℤ
  pub done : Bool

-- Where a client stands in `execute(op)`. It has one operation, on its stack, at an address that is
-- the client's number.
pub data Client : Type 0 where
  idle : Client
  begin : Client  -- before `op->done = 0`
  poll : Client  -- before the test without the lock
  polled : ℕ → Client  -- in that test, with `q.puts` read
  acquire : Client  -- at `pthread_spin_lock`
  test : Client  -- before the test under the lock
  retreat : Client  -- before the unlock of a full queue
  store : Client  -- before `q.ops[q.puts % QUEUE_MAX_SIZE] = op`
  bump : Client  -- before `q.puts++`
  leave : Client  -- before the unlock
  wait : Client  -- at `while (!op->done)`
  finish : Client  -- before `return op->err`
  returned : ℤ → Client

-- Where a server stands in `get_op` and `send_result`, with its operation.
pub data Server : Type 0 where
  poll : Server  -- before the test without the lock
  polled : ℕ → Server  -- in that test, with `q.puts` read
  acquire : Server  -- at `pthread_spin_lock`
  test : Server  -- before the test under the lock
  retreat : Server  -- before the unlock of an empty queue
  take : Server  -- before `op = q.ops[q.gets % QUEUE_MAX_SIZE]`
  bump : ℕ → Server  -- before `q.gets++`
  leave : ℕ → Server  -- before the unlock
  working : ℕ → Server  -- `get_op` has returned the operation
  answer : ℕ → ℤ → Server  -- before `op->err = err`
  finish : ℕ → Server  -- before `op->done = 1`

pub data Thread : Type 0 where
  client : ℕ → Thread
  server : ℕ → Thread

-- `q`, the operations and the threads. `overflowed` says that `q.puts++` has left the range of
-- `int`, which C leaves undefined: nothing happens after it.
pub record System : Type 0 where
  pub ops : ℕ → ℕ
  pub puts : ℕ
  pub gets : ℕ
  pub spin : Option Thread
  pub op : ℕ → Operation
  pub client : ℕ → Client
  pub server : ℕ → Server
  pub overflowed : Bool

-- INT_MAX
abbrev pub int_max : ℕ
int_max = 2147483647

abbrev pub go_client : ℕ → Client → System → System
go_client c pc s = record s { client = upd s.client c pc }

abbrev pub go_server : ℕ → Server → System → System
go_server j pc s = record s { server = upd s.server j pc }

-- `pthread_spin_lock` of a thread that goes on to `got` when it has the lock.
abbrev pub lock : Option Thread → Thread → System → System → System
lock none t got s = record got { spin = some t }
lock (some _) t got s = s

-- `q.puts - q.gets >= QUEUE_MAX_SIZE`
abbrev pub is_full : System → Bool
is_full s = leb queue_max_size (s.puts - s.gets)

-- `q.puts <= q.gets`
abbrev pub is_empty : System → Bool
is_empty s = leb s.puts s.gets

-- A step of client `c` in `execute`.
unfoldable pub client_step : ℕ → System → Client → System
client_step c s idle = s
client_step c s begin =
    go_client c poll (record s { op = upd s.op c (record (s.op c) { done = false }) })
client_step c s poll = go_client c (polled s.puts) s
client_step c s (polled p) =
    if leb queue_max_size (p - s.gets) then go_client c poll s else go_client c acquire s
client_step c s acquire = lock s.spin (client c) (go_client c test s) s
client_step c s test = if is_full s then go_client c retreat s else go_client c store s
client_step c s retreat = go_client c poll (record s { spin = none })
client_step c s store = go_client c bump (record s { ops = upd s.ops (s.puts % queue_max_size) c })
client_step c s bump =
    if s.puts == int_max
    then record s { overflowed = true }
    else go_client c leave (record s { puts = s.puts + 1 })
client_step c s leave = go_client c wait (record s { spin = none })
client_step c s wait = if (s.op c).done then go_client c finish s else s
client_step c s finish = go_client c (returned (s.op c).err) s
client_step c s (returned e) = s

-- A step of server `j` in `get_op` and `send_result`.
unfoldable pub server_step : ℕ → System → Server → System
server_step j s poll = go_server j (polled s.puts) s
server_step j s (polled p) = if leb p s.gets then go_server j poll s else go_server j acquire s
server_step j s acquire = lock s.spin (server j) (go_server j test s) s
server_step j s test = if is_empty s then go_server j retreat s else go_server j take s
server_step j s retreat = go_server j poll (record s { spin = none })
server_step j s take = go_server j (bump (s.ops (s.gets % queue_max_size))) s
server_step j s (bump o) = go_server j (leave o) (record s { gets = s.gets + 1 })
server_step j s (leave o) = go_server j (working o) (record s { spin = none })
server_step j s (working o) = s
server_step j s (answer o e) =
    go_server j (finish o) (record s { op = upd s.op o (record (s.op o) { err = e }) })
server_step j s (finish o) =
    go_server j poll (record s { op = upd s.op o (record (s.op o) { done = true }) })

-- A handler of FUSE calls `execute` with a request, in a thread that is in no call.
unfoldable pub call_step : ℕ → Request → System → Client → System
call_step c r s idle =
    go_client c begin (record s { op = upd s.op c (record (s.op c) { request = r }) })
call_step c r s (returned e) =
    go_client c begin (record s { op = upd s.op c (record (s.op c) { request = r }) })
call_step c r s _ = s

-- The file system calls `send_result_and_get_op` with its answer.
unfoldable pub answer_step : ℕ → ℤ → System → Server → System
answer_step j e s (working o) = go_server j (answer o e) s
answer_step j e s _ = s

-- What happens next: a thread takes a step, FUSE calls a handler, or the file system answers.
pub data Event : Type 0 where
  run_client : ℕ → Event
  run_server : ℕ → Event
  call : ℕ → Request → Event
  reply : ℕ → ℤ → Event

unfoldable pub act : Event → System → System
unfolding client_step server_step call_step answer_step
act (run_client c) s = client_step c s (s.client c)
act (run_server j) s = server_step j s (s.server j)
act (call c r) s = call_step c r s (s.client c)
act (reply j e) s = answer_step j e s (s.server j)

unfoldable pub step : Event → System → System
unfolding act
step e s = if s.overflowed then s else act e s

-- The steps of a schedule, the first first.
unfoldable pub run : List Event → System → System
run [] s = s
run (e ∷ es) s = run es (step e s)

-- After `initialize`: the static `q` is zero, the lock is free, no thread is in a call. What an
-- operation on a stack holds before is `junk`.
unfoldable pub initialize : (ℕ → Operation) → System
initialize junk = record {
  ops = λ _. 0;
  puts = 0;
  gets = 0;
  spin = none;
  op = junk;
  client = λ _. Client.idle;
  server = λ _. Server.poll;
  overflowed = false;
}

-- The states that a run reaches as long as nothing undefined has happened in it.
pub data Reachable : System → Type 0 where
  start : (junk : ℕ → Operation) → Reachable (initialize junk)
  next :
      {s : System} (e : Event) → Reachable s → (step e s).overflowed ≡ false → Reachable (step e s)
