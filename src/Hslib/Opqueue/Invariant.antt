-- ===== src/Hslib/Opqueue/Invariant.antt =====
-- What holds of the ring `q` of src/hslib/opqueue.c, of its lock and of the operations in it, in
-- every state that the threads reach.
use fscq.Base.{ℕ, ◌+◌, ◌%◌, ◌≤◌, ◌<◌, ◌≡◌, ◌≢◌, refl, Bool, true, false, Option, none, some}
use fscq.Hslib.Opqueue.{System, Client, Server, Thread, client, server, queue_max_size, lock}

-- The client has the lock.
abbrev pub client_locks : Client → Bool
client_locks Client.test = true
client_locks Client.retreat = true
client_locks Client.store = true
client_locks Client.bump = true
client_locks Client.leave = true
client_locks _ = false

abbrev pub server_locks : Server → Bool
server_locks Server.test = true
server_locks Server.retreat = true
server_locks Server.take = true
server_locks (Server.bump o) = true
server_locks (Server.leave o) = true
server_locks _ = false

-- The client has put its operation in the ring, and does not touch it until it is done.
abbrev pub lends : Client → Bool
lends Client.leave = true
lends Client.wait = true
lends _ = false

-- The client has set `op->done = 0`, and has not put its operation in the ring.
abbrev pub prepares : Client → Bool
prepares Client.poll = true
prepares (Client.polled p) = true
prepares Client.acquire = true
prepares Client.test = true
prepares Client.retreat = true
prepares Client.store = true
prepares Client.bump = true
prepares _ = false

-- The operation that a server has taken out of the ring and has not finished.
abbrev pub held : Server → Option ℕ
held (Server.leave o) = some o
held (Server.working o) = some o
held (Server.answer o e) = some o
held (Server.finish o) = some o
held _ = none

-- The operation in slot `k` of the ring, where slots are counted from the first `put`.
abbrev pub slot : System → ℕ → ℕ
slot s k = s.ops (k % queue_max_size)

abbrev pub IsLent : System → ℕ → Type 0
IsLent s o = (lends (s.client o) ≡ true) × ((s.op o).done ≡ false)

pub record Inv (s : System) : Type 0 where
  pub order : s.gets ≤ s.puts
  pub room : s.puts ≤ s.gets + queue_max_size
  pub by_client : (c : ℕ) → client_locks (s.client c) ≡ true → s.spin ≡ some (client c)
  pub by_server : (j : ℕ) → server_locks (s.server j) ≡ true → s.spin ≡ some (server j)
  pub cleared : (c : ℕ) → prepares (s.client c) ≡ true → (s.op c).done ≡ false
  pub may_store : (c : ℕ) → s.client c ≡ Client.store → s.puts < s.gets + queue_max_size
  pub stored :
      (c : ℕ) → s.client c ≡ Client.bump → (s.puts < s.gets + queue_max_size) × (slot s s.puts ≡ c)
  pub may_take : (j : ℕ) → s.server j ≡ Server.take → s.gets < s.puts
  pub taken : (j o : ℕ) → s.server j ≡ Server.bump o → (s.gets < s.puts) × (slot s s.gets ≡ o)
  pub queued : (k : ℕ) → s.gets ≤ k → k < s.puts → IsLent s (slot s k)
  pub queued_once :
      (k l : ℕ) → s.gets ≤ k → k < s.puts → s.gets ≤ l → l < s.puts → slot s k ≡ slot s l → k ≡ l
  pub worked_on : (j o : ℕ) → held (s.server j) ≡ some o → IsLent s o
  pub held_once : (i j o : ℕ) → held (s.server i) ≡ some o → held (s.server j) ≡ some o → i ≡ j
  pub apart : (j o k : ℕ) → held (s.server j) ≡ some o → s.gets ≤ k → k < s.puts → slot s k ≢ o

-- The lock is taken if it is free, or nothing changes.
pub lock-Inv :
    (spin : Option Thread) (t : Thread) (got s : System)
    → (spin ≡ none → Inv (record got { spin = some t }))
    → Inv s
    → Inv (lock spin t got s)
lock-Inv none t got s free busy = free refl
lock-Inv (some x) t got s free busy = busy
