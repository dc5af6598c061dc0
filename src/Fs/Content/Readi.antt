-- ===== src/Fs/Content/Readi.antt =====
-- `readi` of xv6/fs.c against the bytes of the file.
use fscq.Base.{
  ℕ, zero, suc, ◌+◌, ◌-◌, ◌/◌, ◌%◌, ◌≤◌, ◌<◌, ◌≡◌, refl, ap, ◌∙◌, true, false, arith, ltb, leb,
  ◌||◌, ◌==◌, Bool-cases, inl, inr, if◌then◌else◌, min, pos, minus_one, ℤ, Bool,
}
use fscq.Memory.{Bytes, shift, memmove, in_range}
use fscq.Params.{rootdev, bsize, t_dev, u32}
use fscq.Machine.{Sys, Inode, M, ok, pure, get_buf, ◌>>=◌, ◌>>◌}
use fscq.Machine.Post.{Post, bind-Post, weaken-Post, ok-Post}
use fscq.Bio.{brelse}
use fscq.Bio.View.{view}
use fscq.Log.Copy.{IsQuiet}
use fscq.Log.Update.Read.{Keeps, Keeps-refl, Keeps-trans, read_end}
use fscq.Fs.Content.{bread_at, readi_loop, readi, chunk, bad_range}
use fscq.Fs.Content.Blocks.{IsFile, byte_at, addr_at, HasBlock, bread_at-Post}

-- `dst`, with the bytes of the file from `off` on at its places from `tot` to `n`.
unfoldable Filled : Sys → Inode → ℕ → ℕ → ℕ → Bytes → Bytes → Type 0
unfolding byte_at
Filled s ip off tot n dst d =
    (k : ℕ) → d k ≡ (if in_range tot (n - tot) k then byte_at s ip (off + (k - tot)) else dst k)

module _ (s : Sys) (ip : Inode) where
  -- A byte of the chunk that a round has copied.
  chunk_byte :
      (off n tot j : ℕ) (b : Bytes)
      → b ≡ view s rootdev (addr_at s ip (off / bsize))
      → j < chunk n tot off
      → b (off % bsize + j) ≡ byte_at s ip (off + j)
  unfolding byte_at
  chunk_byte off n tot j b e lt =
      let block : (off + j) / bsize ≡ off / bsize = ground arith in
      let place : (off + j) % bsize ≡ off % bsize + j = ground arith in
      rw (block, place) (ap (λ (c : Bytes). c (off % bsize + j)) e)

  Filled-end : (off n tot : ℕ) (dst : Bytes) → n ≤ tot → Filled s ip off tot n dst dst
  unfolding Filled
  Filled-end off n tot dst le k = ground arith

  Filled-round :
      (off n tot : ℕ) (dst d b : Bytes)
      → b ≡ view s rootdev (addr_at s ip (off / bsize))
      → tot < n
      → Filled s ip
          (off + chunk n tot off)
          (tot + chunk n tot off)
          n
          (memmove dst tot (shift (off % bsize) b) (chunk n tot off))
          d
      → Filled s ip off tot n dst d
  unfolding Filled memmove
  Filled-round off n tot dst d b e lt h k = elim (Bool-cases (ltb k tot)) [
    | inl below ↦ ground (arith, h k)
    | inr from ↦ elim (Bool-cases (ltb k (tot + chunk n tot off))) [
      | inl here ↦
          let byte = chunk_byte off n tot (k - tot) b e (ground arith) in ground (arith, h k, byte)
      | inr after ↦
          let place : off + chunk n tot off + (k - (tot + chunk n tot off)) ≡ off + (k - tot) =
            ground arith in
          ground (arith, h k, ap (byte_at s ip) place)
    ]
  ]

module _ (s : Sys) (i : ℕ) (f : IsFile s (s.inode i)) where
  abbrev ip : Inode
  ip = s.inode i

  -- The loop, from any round on.
  abbrev ReadsTo : ℕ → ℕ → ℕ → Bytes → Bytes → Sys → Type 0
  ReadsTo off tot n dst d u = Filled s ip off tot n dst d × Keeps s u

  readi_loop-done :
      (fuel : ℕ) (dst : Bytes) (off n tot : ℕ) (t : Sys)
      → leb n tot ≡ true
      → readi_loop (suc fuel) i dst off n tot t ≡ ok dst t
  unfolding readi_loop
  readi_loop-done fuel dst off n tot t done = rw done refl

  abbrev round : ℕ → Bytes → ℕ → ℕ → ℕ → ℕ → M Bytes
  round fuel dst off n tot bp = get_buf bp >>= λ b.
      brelse bp
      >> readi_loop fuel i (memmove dst tot (shift (off % bsize) b.bytes) (chunk n tot off))
          (off + chunk n tot off) n (tot + chunk n tot off)

  readi_loop-more :
      (fuel : ℕ) (dst : Bytes) (off n tot : ℕ) (t : Sys)
      → leb n tot ≡ false
      → readi_loop (suc fuel) i dst off n tot t ≡ (bread_at i off >>= round fuel dst off n tot) t
  unfolding readi_loop
  readi_loop-more fuel dst off n tot t more = rw more refl

  round-Post :
      (fuel : ℕ) (dst : Bytes) (off n tot bp : ℕ) (u : Sys)
      → tot < n
      → HasBlock s ip off bp u
      → ((d : Bytes) (t : Sys)
          → Keeps s t
          → Post
              (ReadsTo (off + chunk n tot off) (tot + chunk n tot off) n d)
              (Keeps s)
              (readi_loop fuel i d (off + chunk n tot off) n (tot + chunk n tot off) t))
      → Post (ReadsTo off tot n dst) (Keeps s) (round fuel dst off n tot bp u)
  round-Post fuel dst off n tot bp u lt (v, k, r) next =
      let (w, e, l) = read_end v k.quiet (addr_at s ip (off / bsize)) bp u r in
      let b : Bytes = (u.cache.buf bp).bytes in
      let d : Bytes = memmove dst tot (shift (off % bsize) b) (chunk n tot off) in
      rw e (
        weaken-Post (readi_loop fuel i d (off + chunk n tot off) n (tot + chunk n tot off) w)
          (next d w (Keeps-trans k l))
          (λ d' z p. (
            Filled-round s ip off n tot dst d' b
                (r.contents ∙ k.same_view (addr_at s ip (off / bsize))) lt p.0,
            p.1,
          ))
          (λ z p. p))

  readi_loop-Post :
      (fuel : ℕ) (dst : Bytes) (off n tot : ℕ) (t : Sys)
      → n - tot < fuel
      → off + (n - tot) ≤ ip.size
      → Keeps s t
      → Post (ReadsTo off tot n dst) (Keeps s) (readi_loop fuel i dst off n tot t)
  readi_loop-Post zero dst off n tot t enough within k = absurd (omega arith)
  readi_loop-Post (suc fuel) dst off n tot t enough within k = elim (Bool-cases (leb n tot)) [
    | inl done ↦
        ok-Post (readi_loop-done fuel dst off n tot t done)
          (Filled-end s ip off n tot dst (ground arith), k)
    | inr more ↦
        let lt : tot < n = ground arith in
        rw (readi_loop-more fuel dst off n tot t more) (
          bind-Post (bread_at i off) (round fuel dst off n tot) t
            (bread_at-Post s t i off f k (omega arith))
            λ bp u held. round-Post fuel dst off n tot bp u lt held λ d w l.
              readi_loop-Post fuel d (off + chunk n tot off) n (tot + chunk n tot off) w
                (omega arith) (omega arith) l)
  ]

-- Where `readi` returns -1, and the number of bytes that it reads otherwise.
abbrev readi_fails : Inode → ℕ → ℕ → Bool
readi_fails ip off n = ip.type == t_dev || (ltb ip.size off || leb u32 (off + n))

abbrev readi_count : Inode → ℕ → ℕ → ℕ
readi_count ip off n = min n (ip.size - off)

-- The result of `readi`: the bytes of the file from `off` on at the start of `dst`.
pub record ReadsBytes (s : Sys) (ip : Inode) (dst : Bytes) (off n : ℕ) (r : ℤ × Bytes)
    : Type 0 where
  pub result : r.0 ≡ (if readi_fails ip off n then minus_one else pos (readi_count ip off n))
  pub bytes :
      (k : ℕ)
      → r.1 k ≡ (
          if readi_fails ip off n
          then dst k
          else if ltb k (readi_count ip off n)
          then byte_at s ip (off + k)
          else dst k)

-- The code's test, and its count, for numbers of 32 bits.
readi_test :
    (ip : Inode) (off n : ℕ)
    → off < u32
    → n < u32
    → (ip.type == t_dev || bad_range ip.size off n) ≡ readi_fails ip off n
readi_test ip off n ho hn = ground arith

readi_clip :
    (ip : Inode) (off n : ℕ)
    → readi_fails ip off n ≡ false
    → (if ltb ip.size ((off + n) % u32) then ip.size - off else n) ≡ readi_count ip off n
readi_clip ip off n fine = ground arith

module _ (s : Sys) (i : ℕ) (q : IsQuiet s) (f : IsFile s (s.inode i)) (dst : Bytes) (off n : ℕ)
    (off_small : off < u32) (n_small : n < u32) where
  abbrev Result : ℤ × Bytes → Sys → Type 0
  Result r t = ReadsBytes s (s.inode i) dst off n r × Keeps s t

  abbrev m : ℕ
  m = readi_count (s.inode i) off n

  Filled-ReadsBytes :
      (d : Bytes)
      → readi_fails (s.inode i) off n ≡ false
      → Filled s (s.inode i) off 0 m dst d
      → ReadsBytes s (s.inode i) dst off n (pos m, d)
  unfolding Filled
  Filled-ReadsBytes d fine h = record {
    result = rw fine refl;
    bytes = λ k. rw fine (ground (arith, h k));
  }

  readi-fine :
      readi_fails (s.inode i) off n ≡ false
      → readi i dst off n s ≡ (readi_loop (m + 1) i dst off m 0 >>= λ d. pure (pos m, d)) s
  unfolding readi
  readi-fine fine =
      rw (readi_test (s.inode i) off n off_small n_small, fine, readi_clip (s.inode i) off n fine)
        refl

  readi-bad : readi_fails (s.inode i) off n ≡ true → readi i dst off n s ≡ ok (minus_one, dst) s
  unfolding readi
  readi-bad bad = rw (readi_test (s.inode i) off n off_small n_small, bad) refl

  -- From a state with a coherent cache and no buffer in use, for a file of the root device that
  -- has all its blocks and no double indirect block: `readi` of `n` bytes at `off`, both of 32
  -- bits, returns -1 and leaves its buffer if the inode is a device, or the offset is past the
  -- end, or the sum overflows; else it returns the bytes of the file from `off` on, as many as
  -- there are up to `n`, and leaves the rest of its buffer; or it stops for want of a free
  -- buffer. Every block reads as before, and nothing has gone to the disk.
  pub readi-ReadsBytes : Post Result (Keeps s) (readi i dst off n s)
  readi-ReadsBytes = elim (Bool-cases (readi_fails (s.inode i) off n)) [
    | inl bad ↦
        ok-Post (readi-bad bad)
          (record { result = rw bad refl; bytes = λ k. rw bad refl }, Keeps-refl s s q refl)
    | inr fine ↦ rw (readi-fine fine) (
        bind-Post (readi_loop (m + 1) i dst off m 0) (λ d. pure (pos m, d)) s
          (readi_loop-Post s i f (m + 1) dst off m 0 s (omega arith) (ground arith)
            (Keeps-refl s s q refl))
          λ d t p. ok-Post refl (Filled-ReadsBytes d fine p.0, p.1))
  ]
