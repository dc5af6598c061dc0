-- ===== src/Hslib/Opfuse/Overflow.antt =====
-- The overflow of `q.puts` of src/hslib/opqueue.c, after calls of the handlers of opfuse.c.
use fscq.Base.{
  ℕ, zero, suc, ◌≤◌, ◌<◌, ◌≡◌, refl, sym, ap, ◌∙◌, subst, true, List, [], ◌∷◌, ◌++◌, arith, pos,
}
use fscq.Hslib.Opqueue.{System, Event, run, step, call, int_max, run_client}
use fscq.Hslib.Opfuse.{Callback, opfuse_oper}
use fscq.Hslib.Opfuse.Calls.{
  handing, replying, storing, IsQuiet, asked, opfuse_oper-returns, opfuse_oper-wanted, begun,
  putting, overflows,
}

run-append : (es fs : List Event) (s : System) → run (es ++ fs) s ≡ run fs (run es s)
unfolding run
run-append [] fs s = refl
run-append (e ∷ es) fs s = run-append es fs (step e s)

module _ (c j : ℕ) (k : Callback) where
  -- A schedule after which `p` operations have been put in the ring, and all have been answered.
  abbrev Counts : System → ℕ → Type 0
  Counts s p = (es : List Event) × IsQuiet c j (run es s) × ((run es s).puts ≡ p)

  Counts-suc : (s : System) (p : ℕ) → p < int_max → Counts s p → Counts s (suc p)
  Counts-suc s p fits (es, quiet, count) =
      let t : System = run es s in
      let served = opfuse_oper-returns c j k (pos 0) t quiet (omega (arith, count, fits)) in
      let same =
        run-append es ((opfuse_oper c k ∷ handing c j) ++ replying c j (pos 0)) s
        ∙ run-append (opfuse_oper c k ∷ handing c j) (replying c j (pos 0)) t in
      (
        es ++ ((opfuse_oper c k ∷ handing c j) ++ replying c j (pos 0)),
        subst (IsQuiet c j) (sym same) served.quiet,
        ap (λ (u : System). u.puts) same ∙ omega (arith, served.counted, count),
      )

  counts : (s : System) (p : ℕ) → IsQuiet c j s → s.puts ≡ 0 → p ≤ int_max → Counts s p
  counts s zero q none_put le = ([], unfold run in q, unfold run in none_put)
  counts s (suc p) q none_put le =
      Counts-suc s p (omega arith) (counts s p q none_put (omega arith))

  -- From a state in which client `c` is in no call, server `j` looks for an operation, the lock
  -- is free and no operation has been put, a schedule of calls by `c`, each of which is served
  -- by `j`, leads to such a state with INT_MAX operations put and the ring empty; and from
  -- there the next call comes to `q.puts++` and overflows it.
  pub opfuse_oper-overflows :
      (s : System)
      → IsQuiet c j s
      → s.puts ≡ 0
      → (es : List Event) × IsQuiet c j (run es s)
        × ((run es s).puts ≡ int_max)
        × ((run ((opfuse_oper c k ∷ storing c) ++ run_client c ∷ []) (run es s)).overflowed ≡ true)
  unfolding run
  opfuse_oper-overflows s q none_put =
      let (es, quiet, count) = counts s int_max q none_put (omega arith) in
      let t : System = run es s in
      let at =
        putting c j (asked k) (pos 0) t.puts (t.op c).done (step (call c (asked k)) t)
          (begun c j (asked k) (pos 0) t quiet) in
      (
        es,
        quiet,
        count,
        rw (opfuse_oper-wanted c k) (overflows c j (asked k) (pos 0) t.puts _ count at),
      )
