-- ===== src/Log/Commit/Install.antt =====
-- `install_trans` of xv6/log.c: each logged copy goes to its place. It is run at the end of a commit
-- and in a recovery; in both the header block of the disk names the copies.
use fscq.Base.{
  ℕ, zero, suc, ◌+◌, ◌<◌, ◌≡◌, refl, sym, ap, ◌∙◌, subst, arith, ◌==◌, Bool-cases, inl, inr, ==_iff,
  ==_self,
}
use fscq.Memory.{Bytes}
use fscq.Params.{rootdev}
use fscq.Machine.{Sys, Log, LogHeader, ok, upd}
use fscq.Machine.Post.{Post, ok-Post}
use fscq.Bio.View.{view}
use fscq.Log.{install_loop, install_trans}
use fscq.Log.Copy.{IsQuiet}
use fscq.Log.Copy.Round.{Puts}
use fscq.Log.Copy.Loops.{install_loop-round}
use fscq.Log.Crash.Since.{Since, Stopped, Since-write, Since-Stopped}
use fscq.Log.Crash.Recovery.{IsUnlogged}
use fscq.Log.Commit.{logged-or-not}

-- A disk on which the log stands for the blocks `v`: `b` is its header block, each block that the
-- header `lh` names is in its copy, and each other one below the log area is in place.
pub record IsLogged (start : ℕ) (lh : LogHeader) (b : Bytes) (v : ℕ → Bytes) (d : ℕ → Bytes)
    : Type 0 where
  pub header : d start ≡ b
  pub copies : (i : ℕ) → i < lh.n → d (start + i + 1) ≡ v (lh.sector i)
  pub others : (x : ℕ) → x < start → IsUnlogged lh x → d x ≡ v x

-- The install of the copies: `s` is the state since which crashes are counted, `l` the log, and a
-- crash that leaves a disk on which the log stands for `v` is safe.
module _ (s : Sys) (Q : (ℕ → Bytes) → Type 0) (l : Log) (b : Bytes) (v : ℕ → Bytes)
    (image_blocks : ℕ) (on_device : l.dev ≡ rootdev) (inside : l.start + l.lh.n < image_blocks)
    (home : (i : ℕ) → i < l.lh.n → l.lh.sector i < l.start)
    (safe : (d : ℕ → Bytes) → IsLogged l.start l.lh b v d → Q d) where
  -- After `tail` rounds.
  pub record Installed (tail : ℕ) (t : Sys) : Type 0 where
    pub quiet : IsQuiet t
    pub same_log : t.log ≡ l
    pub same_image : t.image_blocks ≡ image_blocks
    pub since : Since s Q (IsLogged l.start l.lh b v) t
    pub view_others : (x : ℕ) → x < l.start → IsUnlogged l.lh x → view t rootdev x ≡ v x
    pub view_installed : (i : ℕ) → i < tail → view t rootdev (l.lh.sector i) ≡ v (l.lh.sector i)
    pub copies_view : (i : ℕ) → i < l.lh.n → view t rootdev (l.start + i + 1) ≡ v (l.lh.sector i)
    pub head_view : view t rootdev l.start ≡ b
    pub logged : IsLogged l.start l.lh b v t.disk
    pub installed : (i : ℕ) → i < tail → t.disk (l.lh.sector i) ≡ v (l.lh.sector i)

  -- A write of a logged block to its place.
  IsLogged-install :
      (d : ℕ → Bytes) (tail : ℕ) (c : Bytes)
      → tail < l.lh.n
      → IsLogged l.start l.lh b v d
      → IsLogged l.start l.lh b v (upd d (l.lh.sector tail) c)
  IsLogged-install d tail c lt h = record {
    header = ground (arith, home tail lt, h.header);
    copies = λ i p. ground (arith, home tail lt, h.copies i p);
    others = λ x p none. ground (arith, none tail lt, h.others x p none);
  }

  module _ (tail : ℕ) (t u : Sys) (h : Installed tail t) (room : tail < l.lh.n) (q : IsQuiet u)
      (p : Puts t (l.lh.sector tail) (view t rootdev (l.start + tail + 1)) u) where
    view-installed_step :
        (i : ℕ) → i < tail + 1 → view u rootdev (l.lh.sector i) ≡ v (l.lh.sector i)
    view-installed_step i lt = elim (Bool-cases (l.lh.sector i == l.lh.sector tail)) [
      | inl e ↦ rw ((==_iff _ _).0 e) (p.new_view ∙ h.copies_view tail room)
      | inr ne ↦
          p.same_view (l.lh.sector i) (ground arith)
          ∙ h.view_installed i (elim (Bool-cases (i == tail)) [
            | inl own ↦ absurd (ground arith)
            | inr other ↦ ground arith
          ])
    ]

    Installed-step : Installed (tail + 1) u
    Installed-step = record {
      quiet = q;
      same_log = p.same_log ∙ h.same_log;
      same_image = p.same_image ∙ h.same_image;
      since =
          Since-write s Q (IsLogged l.start l.lh b v) t h.since u (l.lh.sector tail) _ p.trace
            p.disk (λ d. IsLogged-install d tail _ room) safe;
      view_others =
          λ x lt none. p.same_view x (λ e. none tail room (sym e)) ∙ h.view_others x lt none;
      view_installed = view-installed_step;
      copies_view = λ i lt.
          p.same_view (l.start + i + 1) (ground (arith, home tail room)) ∙ h.copies_view i lt;
      head_view = p.same_view l.start (ground (arith, home tail room)) ∙ h.head_view;
      logged = rw p.disk (IsLogged-install t.disk tail _ room h.logged);
      installed = λ i lt. rw p.disk (elim (Bool-cases (l.lh.sector i == l.lh.sector tail)) [
        | inl e ↦ rw ((==_iff _ _).0 e, ==_self) (h.copies_view tail room)
        | inr ne ↦ rw ne (
            h.installed i (elim (Bool-cases (i == tail)) [
              | inl own ↦ absurd (ground arith)
              | inr other ↦ ground arith
            ]))
      ]);
    }

  loop_end : (tail : ℕ) (t : Sys) → install_loop 0 tail t ≡ ok tt t
  unfolding install_loop
  loop_end tail t = refl

  install_loop-Post :
      (k tail : ℕ) (t : Sys)
      → tail + k ≡ l.lh.n
      → Installed tail t
      → Post (λ _ u. Installed l.lh.n u) (Stopped s Q) (install_loop k tail t)
  install_loop-Post zero tail t e h =
      let end : tail ≡ l.lh.n = omega arith in
      ok-Post (loop_end tail t) (subst (λ n. Installed n t) end h)
  install_loop-Post (suc k) tail t e h =
      let room : tail < l.lh.n = omega arith in
      install_loop-round t (l.start + tail + 1) (l.lh.sector tail) h.quiet
        (ground (arith, home tail room)) (rw h.same_image (ground arith))
        (rw h.same_image (ground (arith, home tail room)))
        (λ u same. Since-Stopped s Q (IsLogged l.start l.lh b v) t h.since u same) tail k
        (ap (λ (x : Log). x.dev) h.same_log ∙ on_device)
        (ap (λ (x : Log). x.start + tail + 1) h.same_log)
        (ap (λ (x : Log). x.lh.sector tail) h.same_log)
        λ u q p. install_loop-Post k (tail + 1) u (omega arith) (Installed-step tail t u h room q p)

  -- At the end every block below the log area is in place.
  pub Installed-in_place : (t : Sys) → Installed l.lh.n t → (x : ℕ) → x < l.start → t.disk x ≡ v x
  Installed-in_place t h x lt = elim (logged-or-not l.lh x) [
    | inl (i, p, e) ↦ subst (λ y. t.disk y ≡ v y) e (h.installed i p)
    | inr none ↦ h.logged.others x lt none
  ]

  pub Installed-view :
      (t : Sys) → Installed l.lh.n t → (x : ℕ) → x < l.start → view t rootdev x ≡ v x
  Installed-view t h x lt = elim (logged-or-not l.lh x) [
    | inl (i, p, e) ↦ subst (λ y. view t rootdev y ≡ v y) e (h.view_installed i p)
    | inr none ↦ h.view_others x lt none
  ]

  pub install_trans-Post :
      (t : Sys) → Installed 0 t → Post (λ _ u. Installed l.lh.n u) (Stopped s Q) (install_trans t)
  unfolding install_trans
  install_trans-Post t h =
      subst (λ n. Post (λ _ u. Installed l.lh.n u) (Stopped s Q) (install_loop n 0 t))
        (ap (λ (x : Log). x.lh.n) (sym h.same_log)) (install_loop-Post l.lh.n 0 t (omega arith) h)
