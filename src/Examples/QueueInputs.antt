-- ===== src/Examples/QueueInputs.antt =====
-- The theorems on the queue of src/hslib at concrete inputs: client 1 has called `mkdir`, and server
-- 2 works on it or is about to answer.
use fscq.Base.{ℕ, arith, List, ◌++◌, true, pos, ◌≡◌, ◌≢◌, ◌≤◌, ◌+◌, ◌<◌, refl, [], ◌∷◌, inl, some}
use fscq.Hslib.Opqueue.{
  System, reply, run_server, run_client, call, client, Reachable, start, run, step, act, Event,
  client_step, server_step, call_step, answer_step, initialize, queue_max_size, int_max,
}
use fscq.Hslib.Opqueue.Operations.{Request, OpType, Member}
use fscq.Hslib.Opqueue.Invariant.{held, IsLent, slot}
use fscq.Hslib.Opqueue.Safety.{mutual_exclusion, held_lem, run-Reachable}
use fscq.Hslib.Opqueue.IntRange.{Reachable-bounds}
use fscq.Hslib.Opqueue.Fifo.{FifoStep, step-FifoStep}
use fscq.Hslib.Opqueue.Replies.{Sent, send_result-Sent}
use fscq.Hslib.Opfuse.{Callback, opfuse_oper}
use fscq.Hslib.Opfuse.Calls.{handing, replying, storing, IsQuiet, Served, opfuse_oper-returns}
use fscq.Hslib.Opfuse.Overflow.{opfuse_oper-overflows}

abbrev asking : Request
asking = record { op_type = OpType.op_mkdir; u = Member.mkdir (b'/' ∷ b'a' ∷ []) 493 }

abbrev booted : System
booted = initialize (λ _. record { request = asking; err = pos 0; done = true })

abbrev handed : System
handed = run (call 1 asking ∷ handing 1 2) booted

handed-Reachable : Reachable handed
unfolding run step act client_step server_step call_step initialize
handed-Reachable =
    run-Reachable (call 1 asking ∷ handing 1 2) booted
      (start (λ _. record { request = asking; err = pos 0; done = true })) refl

-- Client 3 is in its critical section.
abbrev enter : List Event
enter = call 3 asking ∷ storing 3

abbrev entering : System
entering = run enter handed

entering-Reachable : Reachable entering
unfolding run step act client_step server_step call_step initialize
entering-Reachable = run-Reachable enter handed handed-Reachable refl

Reachable-bounds_example :
    (entering.gets ≤ entering.puts)
    × (entering.puts ≤ entering.gets + queue_max_size)
    × (entering.puts ≤ int_max)
Reachable-bounds_example = Reachable-bounds entering entering-Reachable

mutual_exclusion_example : client 3 ≡ client 3
unfolding run step act client_step server_step call_step initialize
mutual_exclusion_example =
    mutual_exclusion entering entering-Reachable (client 3) (client 3) refl refl

held_lem_example :
    IsLent handed 1
    × ((i : ℕ) → held (handed.server i) ≡ some 1 → i ≡ 2)
    × ((k : ℕ) → handed.gets ≤ k → k < handed.puts → slot handed k ≢ 1)
unfolding run step act client_step server_step call_step initialize
held_lem_example = held_lem handed handed-Reachable 2 1 refl

step-FifoStep_example : FifoStep (run_client 3) entering (step (run_client 3) entering)
step-FifoStep_example = step-FifoStep entering (run_client 3) entering-Reachable

abbrev answering : System
answering = step (reply 2 (pos 7)) handed

send_result-Sent_example :
    Sent
      (run (run_server 2 ∷ run_client 1 ∷ run_client 1 ∷ []) (step (run_server 2) answering))
      2
      1
      (pos 7)
unfolding run step act client_step server_step call_step answer_step initialize
send_result-Sent_example =
    send_result-Sent answering 2 1 (pos 7) (run_server 2 ∷ run_client 1 ∷ run_client 1 ∷ [])
      (run-Reachable (reply 2 (pos 7) ∷ []) handed handed-Reachable refl) refl tt

booted-IsQuiet : IsQuiet 1 2 booted
unfolding initialize
booted-IsQuiet = record {
  no_call = inl refl;
  seeking = refl;
  unlocked = refl;
  drained = refl;
  runs = refl;
}

abbrev made : Callback
made = Callback.mkdir (b'a' ∷ []) 7

opfuse_oper-returns_example :
    Served 1 2 made
      (pos 5)
      booted
      (run (opfuse_oper 1 made ∷ handing 1 2) booted)
      (run (replying 1 2 (pos 5)) (run (opfuse_oper 1 made ∷ handing 1 2) booted))
unfolding initialize
opfuse_oper-returns_example =
    opfuse_oper-returns 1 2 made (pos 5) booted booted-IsQuiet (omega arith)

opfuse_oper-overflows_example :
    (es : List Event) × IsQuiet 1 2 (run es booted)
    × ((run es booted).puts ≡ int_max)
    × ((run ((opfuse_oper 1 made ∷ storing 1) ++ run_client 1 ∷ []) (run es booted)).overflowed
        ≡ true)
unfolding initialize
opfuse_oper-overflows_example = opfuse_oper-overflows 1 2 made booted booted-IsQuiet refl
