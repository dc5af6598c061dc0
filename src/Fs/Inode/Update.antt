-- ===== src/Fs/Inode/Update.antt =====
-- `iupdate` of xv6/fs.c within a transaction, by what the inode blocks read as.
use fscq.Base.{
  ℕ, ◌+◌, ◌≤◌, ◌<◌, ◌≡◌, ◌≢◌, refl, sym, subst, ◌⊎◌, inl, inr, arith, ◌==◌, Bool-cases, ==_iff,
}
use fscq.Params.{rootdev, iblock}
use fscq.Machine.{Sys, Inode}
use fscq.Machine.Post.{Post, weaken-Post}
use fscq.Bio.View.{view}
use fscq.Log.Update.{CanLog, Logs}
use fscq.Log.Update.Block.{change_block-Post}
use fscq.Fs.Inode.{dinode_at, get_dinode, put_dinode, iupdate}
use fscq.Fs.Inode.Dinode.{IsInRange, SameDinode, get_dinode-put_dinode, get_dinode-put_dinode_ne}

-- Inode `inum` as a load from its block gives it, in an entry with contents `jp`.
abbrev pub dinode_of : Sys → ℕ → Inode → Inode
dinode_of s inum jp = get_dinode (view s rootdev (iblock inum)) (dinode_at inum) jp

-- After the store of inode `ip`, its block is logged, a load gives it, and every other inode is as
-- it was.
pub record Stores (s : Sys) (ip : Inode) (t : Sys) : Type 0 where
  pub logs : Logs s (iblock ip.inum) (view t rootdev (iblock ip.inum)) t
  pub stored : (jp : Inode) → SameDinode (dinode_of t ip.inum jp) ip
  pub others :
      (inum : ℕ)
      → inum ≢ ip.inum
      → (jp : Inode) → SameDinode (dinode_of t inum jp) (dinode_of s inum jp)

SameDinode-refl : (ip : Inode) → SameDinode ip ip
SameDinode-refl ip = record {
  type = refl;
  major = refl;
  minor = refl;
  nlink = refl;
  size = refl;
  ctime = refl;
  atime = refl;
  mtime = refl;
  addrs = λ i h. refl;
}

module _ (s : Sys) (ip : Inode) (r : IsInRange ip) (t : Sys)
    (h : Logs s
      (iblock ip.inum)
      (put_dinode ip (dinode_at ip.inum) (view s rootdev (iblock ip.inum)))
      t) where
  -- Another inode of the same block lies 64 bytes off or more.
  same_block :
      (inum : ℕ)
      → inum ≢ ip.inum
      → iblock inum ≡ iblock ip.inum
      → (jp : Inode) → SameDinode (dinode_of t inum jp) (dinode_of s inum jp)
  same_block inum ne e jp =
      let apart : (dinode_at inum + 64 ≤ dinode_at ip.inum)
          ⊎ (dinode_at ip.inum + 64 ≤ dinode_at inum) =
        omega arith in
      subst
        (λ n.
          SameDinode (get_dinode (view t rootdev n) (dinode_at inum) jp)
            (get_dinode (view s rootdev n) (dinode_at inum) jp))
        (sym e)
        (subst
          (λ b.
            SameDinode (get_dinode b (dinode_at inum) jp)
              (get_dinode (view s rootdev (iblock ip.inum)) (dinode_at inum) jp))
          (sym h.new_view)
          (get_dinode-put_dinode_ne ip jp (dinode_at ip.inum) (dinode_at inum)
            (view s rootdev (iblock ip.inum)) apart))

  other_inodes :
      (inum : ℕ)
      → inum ≢ ip.inum
      → (jp : Inode) → SameDinode (dinode_of t inum jp) (dinode_of s inum jp)
  other_inodes inum ne jp = elim (Bool-cases (iblock inum == iblock ip.inum)) [
    | inl e ↦ same_block inum ne ((==_iff _ _).0 e) jp
    | inr other ↦
        subst (λ b. SameDinode (get_dinode b (dinode_at inum) jp) (dinode_of s inum jp))
          (sym (h.same_view (iblock inum) (ground arith))) (SameDinode-refl (dinode_of s inum jp))
  ]

  Logs-Stores : Stores s ip t
  Logs-Stores = record {
    logs = subst (λ b. Logs s (iblock ip.inum) b t) (sym h.new_view) h;
    stored = λ jp.
        subst (λ b. SameDinode (get_dinode b (dinode_at ip.inum) jp) ip) (sym h.new_view)
          (get_dinode-put_dinode ip jp (dinode_at ip.inum) (view s rootdev (iblock ip.inum)) r);
    others = other_inodes;
  }

-- In a transaction with room for one block more, `iupdate` of an inode of the root device, whose
-- fields fit their types and whose block lies below the log area, returns, or stops with nothing
-- changed for want of a free buffer. When it returns, a load from the inode's block gives the
-- fields of the inode, a load of every other inode gives what it gave, the block is logged, every
-- other block reads as before, nothing has gone to the disk, and the state can commit.
pub iupdate-Stores :
    (s : Sys) (i : ℕ)
    → CanLog s (iblock (s.inode i).inum)
    → iblock (s.inode i).inum < 4294967296
    → (s.inode i).dev ≡ rootdev
    → IsInRange (s.inode i)
    → Post (λ _ t. Stores s (s.inode i) t) (λ t. t ≡ s) (iupdate i s)
unfolding iupdate
iupdate-Stores s i c small root r =
    weaken-Post (iupdate i s)
      (change_block-Post s (s.inode i).dev (iblock (s.inode i).inum)
        (put_dinode (s.inode i) (dinode_at (s.inode i).inum)) c small root)
      (λ _ t h. Logs-Stores s (s.inode i) r t h) (λ t e. e)
