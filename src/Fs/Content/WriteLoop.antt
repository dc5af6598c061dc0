-- ===== src/Fs/Content/WriteLoop.antt =====
-- The loop of `writei` and `zeroi` of xv6/fs.c within a file, by the bytes of the file.
use fscq.Base.{
  ℕ, zero, suc, ◌+◌, ◌-◌, ◌*◌, ◌/◌, ◌%◌, ◌≤◌, ◌<◌, ◌≡◌, refl, sym, ap, ◌∙◌, subst, true, false,
  arith, ltb, leb, ◌==◌, ==_iff, Bool-cases, inl, inr, if◌then◌else◌,
}
use fscq.Memory.{Bytes, in_range}
use fscq.Params.{rootdev, bsize}
use fscq.Machine.{Sys, Inode, M, Void, ok, ◌>>=◌, ◌>>◌, set_bytes}
use fscq.Machine.Post.{Post, bind-Post, weaken-Post, ok-Post}
use fscq.Bio.{brelse}
use fscq.Bio.View.{view}
use fscq.Log.{log_write}
use fscq.Log.Commit.{CanCommit}
use fscq.Log.Update.{Logs}
use fscq.Log.Update.Block.{change_steps}
use fscq.Log.Update.Read.{Keeps-Logs, Keeps-refl, Keeps-Untouched, Untouched}
use fscq.Log.Update.Room.{HasRoom, HasRoom-CanLog, HasRoom-Keeps, HasRoom-Logs}
use fscq.Fs.Content.{bread_at, write_loop, chunk}
use fscq.Fs.Content.Blocks.{addr_at, byte_at, HasBlock, bread_at-Post}
use fscq.Fs.Content.Writes.{IsOwn, Stays, Stays-refl, Stays-trans, change-Stays, change-byte_at}

-- `change` puts the bytes `new`, from `tot` on, at their places of a block.
abbrev pub Puts : (ℕ → ℕ → ℕ → Bytes → Bytes) → (ℕ → ℕ) → Type 0
Puts change new =
    (tot at m : ℕ) (b : Bytes) (j : ℕ)
    → change tot at m b j ≡ (if in_range at m j then new (tot + (j - at)) else b j)

-- The bytes `new` from `tot` to `n` are in the file from `off` on, and all else is as before.
pub record Wrote (s : Sys) (ip : Inode) (off tot n : ℕ) (new : ℕ → ℕ) (t : Sys) : Type 0 where
  pub can : CanCommit t
  pub stays : Stays s ip t
  pub bytes :
      (k : ℕ)
      → k < ip.size
      → byte_at t ip k
        ≡ (if in_range off (n - tot) k then new (tot + (k - off)) else byte_at s ip k)

-- The blocks that the range has to do with.
abbrev pub blocks : ℕ → ℕ → ℕ
blocks off r = (off % bsize + r + 4095) / bsize

-- A round that leaves bytes to write has filled its block.
next_room :
    (off n tot room : ℕ)
    → tot + chunk n tot off < n
    → blocks off (n - tot) ≤ room
    → blocks (off + chunk n tot off) (n - (tot + chunk n tot off)) ≤ room - 1
next_room off n tot room lt few = omega arith

module _ (change : ℕ → ℕ → ℕ → Bytes → Bytes) (new : ℕ → ℕ) (puts : Puts change new) where
  Wrote-end :
      (s : Sys) (ip : Inode) (off tot n : ℕ)
      → CanCommit s
      → IsOwn s ip
      → n ≤ tot
      → Wrote s ip off tot n new s
  Wrote-end s ip off tot n can own le = record {
    can = can;
    stays = Stays-refl s ip own;
    bytes = λ k lt. ground arith;
  }

  -- One round, and the rest.
  module _ (s : Sys) (ip : Inode) (off tot n : ℕ) (own : IsOwn s ip) (more : tot < n)
      (within : off + (n - tot) ≤ ip.size) (t u : Sys)
      (l : Logs s
        (addr_at s ip (off / bsize))
        (change tot (off % bsize) (chunk n tot off) (view s rootdev (addr_at s ip (off / bsize))))
        t)
      (w : Wrote t ip (off + chunk n tot off) (tot + chunk n tot off) n new u) where
    abbrev m : ℕ
    m = chunk n tot off

    inside : off / bsize * bsize < ip.size
    inside = omega arith

    -- The byte after the round.
    round_byte :
        (k : ℕ)
        → k < ip.size
        → byte_at t ip k ≡ (if in_range off m k then new (tot + (k - off)) else byte_at s ip k)
    unfolding byte_at
    round_byte k lt =
        let byte = change-byte_at s t ip own (off / bsize) inside _ l k lt in
        elim (Bool-cases (k / bsize == off / bsize)) [
          | inl here ↦
              let block : k / bsize ≡ off / bsize = (==_iff _ _).0 here in
              let put =
                puts tot (off % bsize) m (view s rootdev (addr_at s ip (off / bsize)))
                  (k % bsize) in
              let place : in_range (off % bsize) m (k % bsize) ≡ in_range off m k =
                ground (arith, block) in
              elim (Bool-cases (in_range off m k)) [
                | inl put_here ↦
                    let index : tot + (k % bsize - off % bsize) ≡ tot + (k - off) =
                      ground (arith, block) in
                    ground (arith, byte, put, place, ap new index)
                | inr kept ↦ ground (
                  arith,
                  byte,
                  put,
                  place,
                  ap (λ bn. view s rootdev (addr_at s ip bn) (k % bsize)) block,
                )
              ]
          | inr other ↦ let kept : in_range off m k ≡ false = ground arith in ground (arith, byte)
        ]

    Wrote-round : Wrote s ip off tot n new u
    Wrote-round = record {
      can = w.can;
      stays = Stays-trans (change-Stays s t ip own (off / bsize) inside _ l) w.stays;
      bytes = λ k lt. elim (Bool-cases (ltb k (off + m))) [
        | inl early ↦ ground (arith, w.bytes k lt, round_byte k lt)
        | inr late ↦
            let index : tot + m + (k - (off + m)) ≡ tot + (k - off) = ground arith in
            ground (arith, w.bytes k lt, round_byte k lt, ap new index)
      ];
    }

  abbrev round : ℕ → ℕ → ℕ → ℕ → ℕ → ℕ → M Void
  round fuel i off n tot bp =
      set_bytes bp (change tot (off % bsize) (chunk n tot off))
      >> (log_write bp
          >> (brelse bp
              >> write_loop change fuel i (off + chunk n tot off) n (tot + chunk n tot off)))

  write_loop-done :
      (fuel i off n tot : ℕ) (t : Sys)
      → leb n tot ≡ true
      → write_loop change (suc fuel) i off n tot t ≡ ok tt t
  unfolding write_loop
  write_loop-done fuel i off n tot t done = rw done refl

  write_loop-more :
      (fuel i off n tot : ℕ) (t : Sys)
      → leb n tot ≡ false
      → write_loop change (suc fuel) i off n tot t ≡ (bread_at i off >>= round fuel i off n tot) t
  unfolding write_loop
  write_loop-more fuel i off n tot t more = rw more refl

  -- A round with the block in hand.
  round-Post :
      (s : Sys) (fuel i off n tot room bp : ℕ) (u : Sys)
      → IsOwn s (s.inode i)
      → HasRoom s (room + 1)
      → tot < n
      → off + (n - tot) ≤ (s.inode i).size
      → HasBlock s (s.inode i) off bp u
      → ((t : Sys)
          → Stays s (s.inode i) t
          → HasRoom t room
          → Post
              (λ _ v. Wrote t (s.inode i) (off + chunk n tot off) (tot + chunk n tot off) n new v)
              (Untouched t)
              (write_loop change fuel i (off + chunk n tot off) n (tot + chunk n tot off) t))
      → Post
          (λ _ v. Wrote s (s.inode i) off tot n new v)
          (Untouched s)
          (round fuel i off n tot bp u)
  round-Post s fuel i off n tot room bp u own h more within (v, k, r) next =
      let x : ℕ = addr_at s (s.inode i) (off / bsize) in
      let has : off / bsize * bsize < (s.inode i).size = omega arith in
      let home : x < s.log.start = own.home (off / bsize) has in
      let f = change tot (off % bsize) (chunk n tot off) in
      let (a, w, e, e', l) =
        change_steps v x f bp u
          (HasRoom-CanLog v room x (HasRoom-Keeps s v (room + 1) k h) (rw k.same_log home))
          (omega (arith, own.small)) r in
      let l' : Logs s x (f (view s rootdev x)) w = Keeps-Logs s v k x f w l in
      rw (e, e')
        (weaken-Post (write_loop change fuel i (off + chunk n tot off) n (tot + chunk n tot off) w)
          (next w (change-Stays s w (s.inode i) own (off / bsize) has _ l')
            (HasRoom-Logs s w room x _ l' h))
          (λ _ z p. Wrote-round s (s.inode i) off tot n own more within w z l' p)
          (λ z p. record {
            same_disk = p.same_disk ∙ l'.same_disk;
            same_trace = p.same_trace ∙ l'.same_trace;
          }))

  -- The loop, from any round on.
  pub write_loop-Post :
      (fuel room : ℕ) (s : Sys) (i off n tot : ℕ)
      → n - tot < fuel
      → IsOwn s (s.inode i)
      → HasRoom s room
      → (tot < n → blocks off (n - tot) ≤ room)
      → off + (n - tot) ≤ (s.inode i).size
      → Post
          (λ _ t. Wrote s (s.inode i) off tot n new t)
          (Untouched s)
          (write_loop change fuel i off n tot s)
  write_loop-Post zero room s i off n tot enough own h few within = absurd (omega arith)
  write_loop-Post (suc fuel) room s i off n tot enough own h few within =
      elim (Bool-cases (leb n tot)) [
        | inl done ↦
            ok-Post (write_loop-done fuel i off n tot s done)
              (Wrote-end s (s.inode i) off tot n h.can own (ground arith))
        | inr left ↦
            let more : tot < n = ground arith in
            let some_room : room ≡ room - 1 + 1 = omega (arith, few more) in
            rw (write_loop-more fuel i off n tot s left) (
              bind-Post (bread_at i off) (round fuel i off n tot) s
                (weaken-Post (bread_at i off s)
                  (bread_at-Post s s i off own.file (Keeps-refl s s h.can.quiet refl) (omega arith))
                  (λ bp u p. p) (λ u k. Keeps-Untouched s u k))
                λ bp u held.
                  round-Post s fuel i off n tot (room - 1) bp u own (subst (HasRoom s) some_room h)
                    more within held
                    λ t stays h'.
                      let same : t.inode i ≡ s.inode i =
                        ap (λ (g : ℕ → Inode). g i) stays.same_inode in
                      subst
                        (λ (ip : Inode).
                          Post
                            (λ _ v.
                              Wrote t ip (off + chunk n tot off) (tot + chunk n tot off) n new v)
                            (Untouched t)
                            (write_loop change fuel i (off + chunk n tot off) n
                              (tot + chunk n tot off) t))
                        same
                        (write_loop-Post fuel (room - 1) t i (off + chunk n tot off) n
                          (tot + chunk n tot off) (omega arith)
                          (subst (IsOwn t) (sym same) stays.own) h'
                          (λ lt. next_room off n tot room lt (few more))
                          (subst
                            (λ (ip : Inode).
                              off + chunk n tot off + (n - (tot + chunk n tot off)) ≤ ip.size)
                            (sym same) (omega arith))))
      ]
