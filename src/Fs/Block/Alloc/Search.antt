-- ===== src/Fs/Block/Alloc/Search.antt =====
-- The search of `balloc` of xv6/fs.c over the bitmap blocks, and the call as a whole.
use fscq.Base.{
  ℕ, zero, suc, ◌+◌, ◌-◌, ◌*◌, ◌%◌, ◌/◌, ◌≤◌, ◌<◌, ◌≡◌, refl, sym, ap, ◌∙◌, subst, true, false,
  arith, Bool-cases, Option, none, some, Option-cases, inl, inr, min, ltb,
}
use fscq.Params.{rootdev, bpb}
use fscq.Machine.{Sys, M, ◌>>◌, ◌>>=◌, get_buf, pure}
use fscq.Machine.Post.{Post, bind-Post, weaken-Post, ok-Post}
use fscq.Bio.{bread, brelse}
use fscq.Bio.View.{view}
use fscq.Bio.Read.{Reads}
use fscq.Log.{Superblock, readsb}
use fscq.Log.Copy.{bread-Post}
use fscq.Log.Update.{Logs}
use fscq.Log.Update.Block.{change_steps}
use fscq.Log.Update.Read.{
  Keeps, Keeps-Logs, Keeps-refl, Keeps-trans, readsb-Post, read_end, Untouched, Keeps-Untouched,
}
use fscq.Log.Update.Room.{HasRoom-CanLog, HasRoom-Keeps, HasRoom-Logs, same_start}
use fscq.Fs.Block.{in_use, mark, find_bit, take_block, bzero, balloc_loop, balloc}
use fscq.Fs.Block.Bitmap.{FirstFree, find_bit-FirstFree}
use fscq.Fs.Block.Free.{bitmap_of}
use fscq.Fs.Block.Zero.{Zeroes, bzero-Zeroes}
use fscq.Fs.Block.Alloc.{sb_of, is_used, CanAlloc, Allocates, take-Allocates}

module _ (s : Sys) (c : CanAlloc s) where
  abbrev Taken : ℕ → Sys → Type 0
  Taken a t = Allocates s a t

  module _ (t : Sys) (k : Keeps s t) (b bi : ℕ) (in_size : b + bi < (sb_of s).size)
      (place : (b + bi) % bpb ≡ bi) (home_block : b + bi < s.log.start)
      (free : is_used s (b + bi) ≡ false) (first : (j : ℕ) → j < b + bi → is_used s j ≡ true) where
    abbrev x : ℕ
    x = bitmap_of s (b + bi)

    cleared :
        (u : Sys)
        → Logs s x (mark ((b + bi) % bpb) (view s rootdev x)) u
        → Post (λ _ w. Zeroes u (b + bi) w) (Untouched s) (bzero rootdev (b + bi) u)
    cleared u l =
        let home : b + bi < s.log.start = home_block in
        weaken-Post (bzero rootdev (b + bi) u)
          (bzero-Zeroes u (b + bi)
            (HasRoom-CanLog u 0 (b + bi) (HasRoom-Logs s u 1 x _ l c.room)
              (rw (same_start s u x _ l) home))
            (omega (arith, c.small)))
          (λ _ w z. z)
          (λ w e.
            subst (Untouched s) (sym e)
              (record { same_disk = l.same_disk; same_trace = l.same_trace }))

    take_block-Post :
        (bp : ℕ) (u : Sys)
        → Reads t rootdev x bp u
        → Post Taken (Untouched s) (take_block rootdev bp b bi u)
    unfolding take_block
    take_block-Post bp u r =
        let home : x < s.log.start = c.bitmap_home (b + bi) in_size in
        let room = HasRoom-Keeps s t 2 k c.room in
        let (m, w, e, e', l) =
          change_steps t x (mark bi) bp u (HasRoom-CanLog t 1 x room (rw k.same_log home))
            (omega (arith, c.small)) r in
        let l' : Logs s x (mark ((b + bi) % bpb) (view s rootdev x)) w =
          subst (λ p. Logs s x (mark p (view s rootdev x)) w) (sym place)
            (Keeps-Logs s t k x (mark bi) w l) in
        rw (e, e')
          (bind-Post (bzero rootdev (b + bi)) (λ _. pure (b + bi)) w (cleared w l')
            λ _ v z. ok-Post refl (take-Allocates s c (b + bi) in_size free first w v l' z))

  -- Bit `bi` of the bitmap block of `b`, the first block of it.
  used_at :
      (b bi : ℕ)
      → b % bpb ≡ 0
      → bi < bpb
      → is_used s (b + bi) ≡ in_use (view s rootdev (bitmap_of s b)) bi
  unfolding is_used
  used_at b bi whole lt =
      let place : (b + bi) % bpb ≡ bi = omega arith in
      let block : bitmap_of s (b + bi) ≡ bitmap_of s b = omega arith in
      ap (λ x. in_use (view s rootdev x) ((b + bi) % bpb)) block
      ∙ ap (in_use (view s rootdev (bitmap_of s b))) place

  -- The bits of a block that are in use before the one that the scan has found, or all of them.
  used_before :
      (b m : ℕ)
      → b % bpb ≡ 0
      → m ≤ bpb
      → ((j : ℕ) → j < b → is_used s j ≡ true)
      → ((j : ℕ) → 0 ≤ j → j < m → in_use (view s rootdev (bitmap_of s b)) j ≡ true)
      → (j : ℕ) → j < b + m
      → is_used s j ≡ true
  used_before b m whole le before h j lt = elim (Bool-cases (ltb j b)) [
    | inl low ↦ before j (ground arith)
    | inr high ↦
        let at : b + (j - b) ≡ j = ground arith in
        subst (λ i. is_used s i ≡ true) at
          (used_at b (j - b) whole (ground arith) ∙ h (j - b) (omega arith) (ground arith))
  ]

  -- What a round does with the bitmap block in hand.
  abbrev searched : ℕ → ℕ → ℕ → Option ℕ → M ℕ
  searched b k bp found = elim found [
    | some bi ↦ take_block rootdev bp b bi
    | none ↦ brelse bp >> balloc_loop rootdev (sb_of s) (b + bpb) k
  ]

  abbrev search_end : ℕ → ℕ → ℕ → M ℕ
  search_end b k bp =
      get_buf bp >>= λ buf. searched b k bp (find_bit buf.bytes 0 (min bpb ((sb_of s).size - b)))

  module _ (b k f : ℕ) (whole : b % bpb ≡ 0) (before : (j : ℕ) → j < b → is_used s j ≡ true)
      (f_size : f < (sb_of s).size) (f_free : is_used s f ≡ false) (f_home : f < s.log.start)
      (from : b ≤ f) where
    abbrev m : ℕ
    m = min bpb ((sb_of s).size - b)

    abbrev home : ℕ
    home = bitmap_of s b

    -- The block has a free bit.
    search_end-found :
        (t : Sys)
        → Keeps s t
        → (bp : ℕ) (u : Sys) → Reads t rootdev home bp u
        → (bi : ℕ) → find_bit (view s rootdev home) 0 m ≡ some bi
        → Post Taken (Untouched s) (take_block rootdev bp b bi u)
    search_end-found t l bp u r bi found =
        let (lo, hi, clear, used) =
          subst (FirstFree (view s rootdev home) 0 m) found
            (find_bit-FirstFree (view s rootdev home) m 0) in
        let block : bitmap_of s (b + bi) ≡ home = omega arith in
        let before_all = used_before b bi whole (omega arith) before used in
        let not_past : b + bi ≤ f = elim (Bool-cases (ltb f (b + bi))) [
          | inl past ↦ absurd (ground (arith, before_all f (ground arith)))
          | inr upto ↦ ground arith
        ] in
        take_block-Post t l b bi (omega arith) (omega arith) (omega (arith, f_home))
          (used_at b bi whole (omega arith) ∙ clear)
          (used_before b bi whole (omega arith) before used) bp u
          (subst (λ y. Reads t rootdev y bp u) (sym block) r)

    -- It has none: the free block is further on.
    search_end-none :
        find_bit (view s rootdev home) 0 m ≡ none
        → ((j : ℕ) → j < b + bpb → is_used s j ≡ true) × (b + bpb ≤ f)
    search_end-none found =
        let used =
          subst (FirstFree (view s rootdev home) 0 m) found
            (find_bit-FirstFree (view s rootdev home) m 0) in
        let all = used_before b m whole (omega arith) before (λ j p q. used j p (omega arith)) in
        let past : b + m ≤ f = elim (Bool-cases (ltb f (b + m))) [
          | inl within ↦ absurd (ground (arith, all f (ground arith)))
          | inr after ↦ ground arith
        ] in
        (λ j lt. all j (omega arith), omega arith)

    search_end-Post :
        (t : Sys)
        → Keeps s t
        → ((w : Sys)
            → Keeps s w
            → ((j : ℕ) → j < b + bpb → is_used s j ≡ true)
            → b + bpb ≤ f
            → Post Taken (Untouched s) (balloc_loop rootdev (sb_of s) (b + bpb) k w))
        → (bp : ℕ) (u : Sys) → Reads t rootdev home bp u
        → Post Taken (Untouched s) (search_end b k bp u)
    search_end-Post t l next bp u r =
        let bytes : find_bit (u.cache.buf bp).bytes 0 m ≡ find_bit (view s rootdev home) 0 m =
          ap (λ y. find_bit y 0 m) (r.contents ∙ l.same_view home) in
        elim (Option-cases (find_bit (view s rootdev home) 0 m)) [
          | inl none_free ↦
              let (w, e, l') = read_end t l.quiet home bp u r in
              let (used, past) = search_end-none none_free in
              subst (λ o. Post Taken (Untouched s) (searched b k bp o u)) (sym (bytes ∙ none_free))
                (rw e (next w (Keeps-trans l l') used past))
          | inr (bi, found) ↦
              subst (λ o. Post Taken (Untouched s) (searched b k bp o u)) (sym (bytes ∙ found))
                (search_end-found t l bp u r bi found)
        ]

  balloc_loop-Post :
      (k b f : ℕ) (t : Sys)
      → b % bpb ≡ 0
      → ((j : ℕ) → j < b → is_used s j ≡ true)
      → f < (sb_of s).size
      → is_used s f ≡ false
      → f < s.log.start
      → b ≤ f
      → f < b + k * bpb
      → Keeps s t
      → Post Taken (Untouched s) (balloc_loop rootdev (sb_of s) b k t)
  unfolding balloc_loop
  balloc_loop-Post zero b f t whole before f_size f_free f_home from to l = absurd (omega arith)
  balloc_loop-Post (suc k) b f t whole before f_size f_free f_home from to l =
      bind-Post (bread rootdev (bitmap_of s b)) (search_end b k) t
        (weaken-Post (bread rootdev (bitmap_of s b) t)
          (bread-Post t (bitmap_of s b) l.quiet.coherent
            (rw l.same_image (ground (arith, c.bitmap_home b (omega arith), c.room.inside)))
            l.quiet.addressable (λ i m h. l.quiet.idle i m))
          (λ bp u r. r) (λ u e. subst (Untouched s) (sym e) (Keeps-Untouched s t l)))
        λ bp u r.
          search_end-Post b k f whole before f_size f_free f_home from t l
            (λ w l' used past.
              balloc_loop-Post k (b + bpb) f w (omega arith) used f_size f_free f_home past
                (omega arith) l')
            bp u r

  -- In a transaction with room for two blocks more, where some block of the image below the log
  -- area is free in the bitmap, the bitmap lies below the log area, no free block holds a part
  -- of it, and it is of bytes: `balloc` returns the first free block, or stops for want of a
  -- free buffer. When it returns, the bit of that block is set and the bit of every other block
  -- is as it was, the block reads as zeroes, and every block but it and its bitmap block reads
  -- as before. In both cases nothing has gone to the disk.
  pub balloc-Allocates :
      (f : ℕ)
      → f < (sb_of s).size
      → is_used s f ≡ false
      → f < s.log.start
      → Post (λ a t. Allocates s a t) (Untouched s) (balloc rootdev s)
  unfolding balloc
  balloc-Allocates f f_size f_free f_home =
      bind-Post (readsb rootdev) (λ sb. balloc_loop rootdev sb 0 ((sb.size + bpb - 1) / bpb)) s
        (weaken-Post (readsb rootdev s)
          (readsb-Post s c.room.can.quiet (ground (arith, c.bitmap_home f f_size, c.room.inside)))
          (λ sb t h. h) (λ t e. Keeps-Untouched s t (Keeps-refl s t c.room.can.quiet e)))
        λ sb t h.
          subst
            (λ (z : Superblock).
              Post Taken (Untouched s) (balloc_loop rootdev z 0 ((z.size + bpb - 1) / bpb) t))
            (sym h.0)
            (balloc_loop-Post (((sb_of s).size + bpb - 1) / bpb) 0 f t refl
              (λ j lt. absurd (omega arith)) f_size f_free f_home (omega arith) (omega arith) h.1)
