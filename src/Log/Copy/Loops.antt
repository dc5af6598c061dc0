-- ===== src/Log/Copy/Loops.antt =====
-- One round of each copy loop of xv6/log.c, over a quiet state.
use fscq.Base.{ℕ, suc, ◌+◌, ◌<◌, ◌≡◌, ◌≢◌, sym, ap, ◌∙◌, subst}
use fscq.Params.{rootdev}
use fscq.Machine.{Sys, M, Void, ◌>>◌, ◌>>=◌}
use fscq.Machine.Post.{Post}
use fscq.Bio.{bread, brelse}
use fscq.Bio.View.{view}
use fscq.Log.{copy_block, write_log_loop, install_loop}
use fscq.Log.Copy.{IsQuiet, HeldBoth-swap, bread_both-Post}
use fscq.Log.Copy.Round.{Puts, round_end-Post}

-- A round of `write_log`, and one of `install_trans`, before the rest `k` of the loop.
abbrev write_round : ℕ → ℕ → ℕ → M Void → M Void
write_round dev copy home k = bread dev copy >>= λ to.
    bread dev home >>= λ from. copy_block to from >> (brelse from >> (brelse to >> k))

abbrev install_round : ℕ → ℕ → ℕ → M Void → M Void
install_round dev copy home k = bread dev copy >>= λ lbuf.
    bread dev home >>= λ dbuf. copy_block dbuf lbuf >> (brelse lbuf >> (brelse dbuf >> k))

module _ {H : Void → Sys → Type 0} {B : Sys → Type 0} (s : Sys) (copy home : ℕ) (q : IsQuiet s)
    (ne : copy ≢ home) (copy_inside : copy < s.image_blocks) (home_inside : home < s.image_blocks)
    (same : (t : Sys) → t.trace ≡ s.trace → B t) where
  write_round-Post :
      (k : M Void)
      → ((t : Sys) → IsQuiet t → Puts s copy (view s rootdev home) t → Post H B (k t))
      → Post H B (write_round rootdev copy home k s)
  write_round-Post k next =
      bread_both-Post B s copy home
        (λ to from. copy_block to from >> (brelse from >> (brelse to >> k))) q ne copy_inside
        home_inside (λ t e _. same t e)
        λ to from v h. round_end-Post s v copy home to from q ne copy_inside h k next

  install_round-Post :
      (k : M Void)
      → ((t : Sys) → IsQuiet t → Puts s home (view s rootdev copy) t → Post H B (k t))
      → Post H B (install_round rootdev copy home k s)
  install_round-Post k next =
      bread_both-Post B s copy home
        (λ lbuf dbuf. copy_block dbuf lbuf >> (brelse lbuf >> (brelse dbuf >> k))) q ne copy_inside
        home_inside (λ t e _. same t e)
        λ lbuf dbuf v h.
          round_end-Post s v home copy dbuf lbuf q (λ e. ne (sym e)) home_inside (HeldBoth-swap h) k
            next

  -- The round as the loop has it, by what its header names.
  module _ (tail k : ℕ) (dev : s.log.dev ≡ rootdev) (is_copy : s.log.start + tail + 1 ≡ copy)
      (is_home : s.log.lh.sector tail ≡ home) where
    pub write_log_loop-round :
        ((t : Sys)
          → IsQuiet t
          → Puts s copy (view s rootdev home) t
          → Post H B (write_log_loop k (tail + 1) t))
        → Post H B (write_log_loop (suc k) tail s)
    unfolding write_log_loop
    write_log_loop-round next =
        let e : write_log_loop (suc k) tail s
            ≡ write_round rootdev copy home (write_log_loop k (tail + 1)) s =
          ap
            (λ d.
              write_round d (s.log.start + tail + 1) (s.log.lh.sector tail)
                (write_log_loop k (tail + 1)) s)
            dev
          ∙ ap (λ c. write_round rootdev c (s.log.lh.sector tail) (write_log_loop k (tail + 1)) s)
              is_copy
          ∙ ap (λ h. write_round rootdev copy h (write_log_loop k (tail + 1)) s) is_home in
        subst (Post H B) (sym e) (write_round-Post (write_log_loop k (tail + 1)) next)

    pub install_loop-round :
        ((t : Sys)
          → IsQuiet t
          → Puts s home (view s rootdev copy) t
          → Post H B (install_loop k (tail + 1) t))
        → Post H B (install_loop (suc k) tail s)
    unfolding install_loop
    install_loop-round next =
        let e : install_loop (suc k) tail s
            ≡ install_round rootdev copy home (install_loop k (tail + 1)) s =
          ap
            (λ d.
              install_round d (s.log.start + tail + 1) (s.log.lh.sector tail)
                (install_loop k (tail + 1)) s)
            dev
          ∙ ap (λ c. install_round rootdev c (s.log.lh.sector tail) (install_loop k (tail + 1)) s)
              is_copy
          ∙ ap (λ h. install_round rootdev copy h (install_loop k (tail + 1)) s) is_home in
        subst (Post H B) (sym e) (install_round-Post (install_loop k (tail + 1)) next)
