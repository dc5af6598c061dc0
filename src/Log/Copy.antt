-- ===== src/Log/Copy.antt =====
-- One round of the copy loops of xv6/log.c: two `bread`s, the copy of one buffer over the other, its
-- `bwrite`, and the two `brelse`s.
pub mod Loops
pub mod Head
pub mod Round
use fscq.Base.{
  ℕ, ◌<◌, ◌≤◌, ◌≡◌, refl, ◌≢◌, inl, inr, true, false, arith, ==_self, ◌==◌, Bool-cases,
  Option-cases, none, some, contains, ◌∷◌, reverse, sym, ◌∙◌, ap,
}
use fscq.Memory.{Bytes}
use fscq.Params.{rootdev}
use fscq.Machine.{Sys, Buf, DiskOp, M, Void, ok, ◌>>◌, ◌>>=◌, upd, put_buf, and_then}
use fscq.Machine.Post.{Post, ok-Post, panicked-Post, weaken-Post, bind-Post}
use fscq.Ide.{max_sector}
use fscq.Bio.{find_cached, find_free, bread, bwrite, brelse, holds}
use fscq.Bio.View.{
  view, IsCoherent, find_cached-some, find_cached_unique, find_cached-same, find_cached-none,
}
use fscq.Bio.Read.{Reads, bread-Reads, bread_full, IsReadable}
use fscq.Bio.Write.{Writes, bwrite-Writes}
use fscq.Bio.Release.{Releases, brelse-Releases}
use fscq.Log.{copy_block}

-- Between two calls of the log: the cache is coherent, none of its buffers is in use, and the
-- image has no block beyond what `iderw` can address.
pub record IsQuiet (s : Sys) : Type 0 where
  pub coherent : IsCoherent s
  pub idle : (i : ℕ) → contains i s.cache.order ≡ true → (s.cache.buf i).busy ≡ false
  pub addressable : s.image_blocks ≤ max_sector

-- Buffer `i` is in the hands of the caller, with block `x` as `s` has it.
pub record Held (s v : Sys) (x i : ℕ) : Type 0 where
  pub in_list : contains i v.cache.order ≡ true
  pub busy : (v.cache.buf i).busy ≡ true
  pub valid : (v.cache.buf i).valid ≡ true
  pub is_block : holds rootdev x (v.cache.buf i) ≡ true
  pub contents : (v.cache.buf i).bytes ≡ view s rootdev x
  pub settled : (v.cache.buf i).dirty ≡ false → (v.cache.buf i).bytes ≡ s.disk x

-- Two blocks are in the hands of the caller, and else nothing has changed.
pub record HeldBoth (s v : Sys) (x y i j : ℕ) : Type 0 where
  pub coherent : IsCoherent v
  pub ne : i ≢ j
  pub first : Held s v x i
  pub second : Held s v y j
  pub rest :
      (k : ℕ) → contains k v.cache.order ≡ true → k ≢ i → k ≢ j → (v.cache.buf k).busy ≡ false
  pub same_view : (z : ℕ) → view v rootdev z ≡ view s rootdev z
  pub same_disk : v.disk ≡ s.disk
  pub same_log : v.log ≡ s.log
  pub same_trace : v.trace ≡ s.trace
  pub same_image : v.image_blocks ≡ s.image_blocks

pub HeldBoth-swap : {s v : Sys} {x y i j : ℕ} → HeldBoth s v x y i j → HeldBoth s v y x j i
HeldBoth-swap h = record {
  coherent = h.coherent;
  ne = λ e. h.ne (sym e);
  first = h.second;
  second = h.first;
  rest = λ k m p q. h.rest k m q p;
  same_view = h.same_view;
  same_disk = h.same_disk;
  same_log = h.same_log;
  same_trace = h.same_trace;
  same_image = h.same_image;
}

-- `bread` of a block of the image that no buffer in use holds returns what it promises, or stops
-- as no buffer is free, with nothing changed.
pub bread-Post :
    (s : Sys) (x : ℕ)
    → IsCoherent s
    → x < s.image_blocks
    → s.image_blocks ≤ max_sector
    → ((i : ℕ)
        → contains i s.cache.order ≡ true
        → holds rootdev x (s.cache.buf i) ≡ true
        → (s.cache.buf i).busy ≡ false)
    → Post (Reads s rootdev x) (λ t. t ≡ s) (bread rootdev x s)
bread-Post s x c inside small idle =
    elim (Option-cases (find_cached s.cache.buf rootdev x s.cache.order)) [
      | inl miss ↦ elim (Option-cases (find_free s.cache.buf (reverse s.cache.order))) [
        | inl full ↦ panicked-Post (bread_full s rootdev x miss full) refl
        | inr (i, free) ↦
            let (j, t, e, r) = bread-Reads s rootdev x c (record {
              on_device = refl;
              inside = inside;
              small = omega arith;
              idle = λ k h. cc;
              some_free = λ h. (i, free);
            }) in
            ok-Post e r
      ]
      | inr (i, hit) ↦
          let (m, h) = find_cached-some s.cache.buf rootdev x s.cache.order i hit in
          let (j, t, e, r) = bread-Reads s rootdev x c (record {
            on_device = refl;
            inside = inside;
            small = omega arith;
            idle = λ k hk.
                let (mk, hk') = find_cached-some s.cache.buf rootdev x s.cache.order k hk in
                idle k mk hk';
            some_free = λ h. cc;
          }) in
          ok-Post e r
    ]

-- After a `bread` of one block and one of another.
module _ (s u v : Sys) (x y i j : ℕ) (q : IsQuiet s) (ne : x ≢ y) (r : Reads s rootdev x i u)
    (r' : Reads u rootdev y j v) where
  reads_ne : i ≢ j
  reads_ne = ground (arith, r.busy, r'.was_idle)

  Reads-HeldBoth : HeldBoth s v x y i j
  Reads-HeldBoth = record {
    coherent = r'.coherent;
    ne = reads_ne;
    first = record {
      in_list = rw (r'.same_order, r.same_order) r.in_list;
      busy = rw (r'.others i reads_ne) r.busy;
      valid = rw (r'.others i reads_ne) r.valid;
      is_block = rw (r'.others i reads_ne) r.is_block;
      contents = rw (r'.others i reads_ne) r.contents;
      settled = λ h. rw (r'.others i reads_ne) (r.settled (ground (arith, r'.others i reads_ne)));
    };
    second = record {
      in_list = rw r'.same_order r'.in_list;
      busy = r'.busy;
      valid = r'.valid;
      is_block = r'.is_block;
      contents = r'.contents ∙ r.same_view rootdev y (omega arith);
      settled = λ h. r'.settled h ∙ ap (λ (d : ℕ → Bytes). d y) r.same_disk;
    };
    rest = λ k m p p'.
        rw (r'.others k p', r.others k p)
          (q.idle k (ap (contains k) (sym r.same_order) ∙ ap (contains k) (sym r'.same_order) ∙ m));
    same_view = λ z. r'.same_view rootdev z (omega arith) ∙ r.same_view rootdev z (omega arith);
    same_disk = r'.same_disk ∙ r.same_disk;
    same_log = r'.same_log ∙ r.same_log;
    same_trace = r'.same_trace ∙ r.same_trace;
    same_image = r'.same_image ∙ r.same_image;
  }

-- Two `bread`s of different blocks of the image, over a quiet state.
pub bread_both-Post :
    {A : Type 0} {H : A → Sys → Type 0} (B : Sys → Type 0) (s : Sys) (x y : ℕ) (k : ℕ → ℕ → M A)
    → IsQuiet s
    → x ≢ y
    → x < s.image_blocks
    → y < s.image_blocks
    → ((t : Sys) → t.trace ≡ s.trace → t.disk ≡ s.disk → B t)
    → ((i j : ℕ) (v : Sys) → HeldBoth s v x y i j → Post H B (k i j v))
    → Post H B ((bread rootdev x >>= λ i. bread rootdev y >>= λ j. k i j) s)
bread_both-Post {A} {H} B s x y k q ne inx iny same next =
    bind-Post (bread rootdev x) (λ i. bread rootdev y >>= λ j. k i j) s
      (weaken-Post (bread rootdev x s)
        (bread-Post s x q.coherent inx q.addressable (λ i m h. q.idle i m)) (λ i u r. r)
        (λ t e. same t (ap (λ (z : Sys). z.trace) e) (ap (λ (z : Sys). z.disk) e)))
      λ i u r.
        bind-Post (bread rootdev y) (k i) u
          (weaken-Post (bread rootdev y u)
            (bread-Post u y r.coherent (rw r.same_image iny) (rw r.same_image q.addressable)
              (λ j m h. elim (Bool-cases (j == i)) [
                | inl own ↦ absurd (ground (arith, r.is_block))
                | inr other ↦
                    rw (r.others j (ground arith))
                      (q.idle j (ap (contains j) (sym r.same_order) ∙ m))
              ]))
            (λ j v r'. r')
            (λ t e.
              same t (ap (λ (z : Sys). z.trace) e ∙ r.same_trace)
                (ap (λ (z : Sys). z.disk) e ∙ r.same_disk)))
          λ j v r'. next i j v (Reads-HeldBoth s u v x y i j q ne r r')
