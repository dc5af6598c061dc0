-- ===== src/Fs/Inode/Lock.antt =====
-- `ilock` and `iunlock` of xv6/fs.c for an inode that is loaded.
use fscq.Base.{ℕ, ◌≡◌, refl, ap, ◌∙◌, true, false, not, ◌||◌, below_one, arith}
use fscq.Machine.{Sys, Inode, ok, upd}
use fscq.Fs.Inode.{ilock, iunlock}

pub upd_eq {ℓ} : {A : Type ℓ} (g : ℕ → A) (i : ℕ) (a : A) → upd g i a i ≡ a
upd_eq g i a = ground arith

pub ilock-loaded :
    (s : Sys) (i : ℕ)
    → below_one (s.inode i).ref ≡ false
    → (s.inode i).busy ≡ false
    → (s.inode i).valid ≡ true
    → ilock i s ≡ ok tt (record s { inode = upd s.inode i (record (s.inode i) { busy = true }) })
unfolding ilock
ilock-loaded s i counted unlocked loaded = rw (counted, unlocked, loaded) refl

pub iunlock-held :
    (u : Sys) (i : ℕ) (ip : Inode)
    → u.inode i ≡ record ip { busy = true }
    → below_one ip.ref ≡ false
    → iunlock i u ≡ ok tt (record u { inode = upd u.inode i (record ip { busy = false }) })
unfolding iunlock
iunlock-held u i ip same counted =
    let held : (not (u.inode i).busy || below_one (u.inode i).ref) ≡ false =
      ap (λ (j : Inode). not j.busy || below_one j.ref) same ∙ counted in
    rw held (
      ap (λ (j : Inode). ok tt (record u { inode = upd u.inode i (record j { busy = false }) }))
        same)
