-- ===== src/Fs/Content/Blocks.antt =====
-- The blocks of a file of xv6/fs.c that has them all, as `bmap` finds them.
use fscq.Base.{
  ℕ, ◌+◌, ◌-◌, ◌*◌, ◌/◌, ◌%◌, ◌≤◌, ◌<◌, ◌≡◌, ◌≢◌, refl, sym, ap, ◌∙◌, subst, true, false, arith,
  ltb, ◌==◌, Bool-cases, inl, inr, if◌then◌else◌,
}
use fscq.Memory.{get32}
use fscq.Params.{rootdev, bsize, ndirect, nindirect}
use fscq.Machine.{Sys, Inode, M, ok, pure, ◌>>=◌, ◌>>◌}
use fscq.Machine.Post.{Post, bind-Post, weaken-Post, ok-Post}
use fscq.Bio.{bread, brelse}
use fscq.Bio.View.{view}
use fscq.Bio.Read.{Reads}
use fscq.Log.Copy.{IsQuiet, bread-Post}
use fscq.Log.Update.Read.{Keeps, Keeps-refl, Keeps-trans, read_end}
use fscq.Fs.Content.{addr_of, indirect_addr, bmap, bread_at}

-- The address of block `bn` of a file, by the view of the cache; 0 stands for none.
unfoldable pub addr_at : Sys → Inode → ℕ → ℕ
addr_at s ip bn =
    if ltb bn ndirect
    then ip.addrs bn
    else get32 (view s rootdev (ip.addrs ndirect)) (4 * (bn - ndirect))

-- A file of the root device, without a double indirect block, all of whose blocks are there.
pub record IsFile (s : Sys) (ip : Inode) : Type 0 where
  pub on_device : ip.dev ≡ rootdev
  pub short : ip.size ≤ (ndirect + nindirect) * bsize
  pub mapped : (bn : ℕ) → bn * bsize < ip.size → addr_at s ip bn ≢ 0
  pub inside : (bn : ℕ) → bn * bsize < ip.size → addr_at s ip bn < s.image_blocks
  pub indirect : ndirect * bsize < ip.size → ip.addrs ndirect ≢ 0
  pub indirect_inside : ndirect * bsize < ip.size → ip.addrs ndirect < s.image_blocks

-- Byte `k` of a file.
unfoldable pub byte_at : Sys → Inode → ℕ → ℕ
unfolding addr_at
byte_at s ip k = view s rootdev (addr_at s ip (k / bsize)) (k % bsize)

addr_of-mapped :
    (s : Sys) (i k : ℕ) → (s.inode i).addrs k ≢ 0 → addr_of i k s ≡ ok ((s.inode i).addrs k) s
unfolding addr_of
addr_of-mapped s i k ne =
    let there : ((s.inode i).addrs k == 0) ≡ false = ground arith in rw there refl

-- `bmap` of a block that the file has.
module _ (s : Sys) (i bn : ℕ) (q : IsQuiet s) (f : IsFile s (s.inode i))
    (has : bn * bsize < (s.inode i).size) where
  abbrev ip : Inode
  ip = s.inode i

  abbrev Found : ℕ → Sys → Type 0
  Found a t = (a ≡ addr_at s ip bn) × Keeps s t

  bmap-direct : ltb bn ndirect ≡ true → Post Found (Keeps s) (bmap i bn s)
  unfolding bmap addr_at
  bmap-direct direct =
      let here : addr_at s ip bn ≡ ip.addrs bn = rw direct refl in
      rw (direct, addr_of-mapped s i bn (λ e. f.mapped bn has (here ∙ e)))
        (ok-Post refl (sym here, Keeps-refl s s q refl))

  -- What `bmap` does with the indirect block in hand.
  abbrev indirect_end : ℕ → ℕ → M ℕ
  indirect_end dev bp = indirect_addr dev bp (bn - ndirect) >>= λ addr. brelse bp >> pure addr

  indirect_end-Post :
      (u : Sys) (bp : ℕ)
      → ltb bn ndirect ≡ false
      → Reads s rootdev (ip.addrs ndirect) bp u
      → Post Found (Keeps s) (indirect_end ip.dev bp u)
  unfolding indirect_addr addr_at
  indirect_end-Post u bp far r =
      let (t, e, k) = read_end s q (ip.addrs ndirect) bp u r in
      let here : get32 (u.cache.buf bp).bytes (4 * (bn - ndirect)) ≡ addr_at s ip bn =
        rw far (ap (λ b. get32 b (4 * (bn - ndirect))) r.contents) in
      let there : (get32 (u.cache.buf bp).bytes (4 * (bn - ndirect)) == 0) ≡ false =
        ground (arith, f.mapped bn has) in
      rw (there, e) (ok-Post refl (here, k))

  bmap-indirect : ltb bn ndirect ≡ false → Post Found (Keeps s) (bmap i bn s)
  unfolding bmap
  bmap-indirect far =
      let long : ndirect * bsize < ip.size = ground arith in
      let near : ltb (bn - ndirect) nindirect ≡ true = ground (arith, f.short) in
      rw (far, near, addr_of-mapped s i ndirect (f.indirect long))
        (subst (λ d. Post Found (Keeps s) ((bread d (ip.addrs ndirect) >>= indirect_end ip.dev) s))
          (sym f.on_device)
          (bind-Post (bread rootdev (ip.addrs ndirect)) (indirect_end ip.dev) s
            (weaken-Post (bread rootdev (ip.addrs ndirect) s)
              (bread-Post s (ip.addrs ndirect) q.coherent (f.indirect_inside long) q.addressable
                (λ j m h. q.idle j m))
              (λ j u r. r) (λ u e. Keeps-refl s u q e))
            λ bp u r. indirect_end-Post u bp far r))

  bmap-Post : Post Found (Keeps s) (bmap i bn s)
  bmap-Post = elim (Bool-cases (ltb bn ndirect)) [
    | inl near ↦ bmap-direct near
    | inr far ↦ bmap-indirect far
  ]

module _ (s t : Sys) (k : Keeps s t) where
  pub addr_at-Keeps : (ip : Inode) (bn : ℕ) → addr_at t ip bn ≡ addr_at s ip bn
  unfolding addr_at
  addr_at-Keeps ip bn = rw (k.same_view (ip.addrs ndirect)) refl

  pub byte_at-Keeps : (ip : Inode) (b : ℕ) → byte_at t ip b ≡ byte_at s ip b
  unfolding byte_at
  byte_at-Keeps ip b =
      rw (addr_at-Keeps ip (b / bsize), k.same_view (addr_at s ip (b / bsize))) refl

  pub IsFile-Keeps : (ip : Inode) → IsFile s ip → IsFile t ip
  IsFile-Keeps ip f = record {
    on_device = f.on_device;
    short = f.short;
    mapped = λ bn h e. f.mapped bn h (sym (addr_at-Keeps ip bn) ∙ e);
    inside = λ bn h. rw (addr_at-Keeps ip bn, k.same_image) (f.inside bn h);
    indirect = f.indirect;
    indirect_inside = λ h. rw k.same_image (f.indirect_inside h);
  }

-- The block of the file at `off` is in hand, and all else is as in `s`.
abbrev pub HasBlock : Sys → Inode → ℕ → ℕ → Sys → Type 0
HasBlock s ip off bp u = (v : Sys) × Keeps s v × Reads v rootdev (addr_at s ip (off / bsize)) bp u

-- The read of a block of a file, after reads that have changed nothing.
module _ (s t : Sys) (i off : ℕ) (f : IsFile s (s.inode i)) (k : Keeps s t)
    (has : off < (s.inode i).size) where
  same_ip : t.inode i ≡ s.inode i
  same_ip = ap (λ (g : ℕ → Inode). g i) k.same_inode

  now : IsFile t (t.inode i)
  now = subst (IsFile t) (sym same_ip) (IsFile-Keeps s t k (s.inode i) f)

  start_inside : off / bsize * bsize < (s.inode i).size
  start_inside = omega arith

  bread-HasBlock :
      (a : ℕ) (v : Sys)
      → a ≡ addr_at s (s.inode i) (off / bsize)
      → Keeps s v
      → Post (HasBlock s (s.inode i) off) (Keeps s) (bread rootdev a v)
  bread-HasBlock a v e l =
      subst (λ x. Post (HasBlock s (s.inode i) off) (Keeps s) (bread rootdev x v)) (sym e)
        (weaken-Post (bread rootdev (addr_at s (s.inode i) (off / bsize)) v)
          (bread-Post v (addr_at s (s.inode i) (off / bsize)) l.quiet.coherent
            (rw l.same_image (f.inside (off / bsize) start_inside)) l.quiet.addressable
            (λ j m h. l.quiet.idle j m))
          (λ bp u r. (v, l, r)) (λ u e. subst (Keeps s) (sym e) l))

  pub bread_at-Post : Post (HasBlock s (s.inode i) off) (Keeps s) (bread_at i off t)
  unfolding bread_at
  bread_at-Post =
      bind-Post (bmap i (off / bsize)) (λ addr. bread (t.inode i).dev addr) t
        (weaken-Post (bmap i (off / bsize) t)
          (bmap-Post t i (off / bsize) k.quiet now
            (subst (λ (ip : Inode). off / bsize * bsize < ip.size) (sym same_ip) start_inside))
          (λ a v p. p) (λ v l. Keeps-trans k l))
        λ a v p.
          subst (λ d. Post (HasBlock s (s.inode i) off) (Keeps s) (bread d a v))
            (sym (ap (λ (ip : Inode). ip.dev) same_ip ∙ f.on_device))
            (bread-HasBlock a v
              (p.0
                ∙ ap (λ (ip : Inode). addr_at t ip (off / bsize)) same_ip
                ∙ addr_at-Keeps s t k (s.inode i) (off / bsize))
              (Keeps-trans k p.1))
