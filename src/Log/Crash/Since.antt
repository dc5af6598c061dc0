-- ===== src/Log/Crash/Since.antt =====
-- The run of a part of xv6/log.c since a state, for the disks that a crash may leave.
use fscq.Base.{ℕ, ◌≡◌, refl, inl, inr, List, [], ◌∷◌, ◌++◌, sym, ◌∙◌, ap, subst}
use fscq.Memory.{Bytes}
use fscq.Machine.{Sys, DiskOp, upd}
use fscq.Log.Crash.{replay, Persists, CrashDisk}

abbrev Disk : Type 0
Disk = ℕ → Bytes

-- From `s` to `t`, operations `new` were asked for; a crash so far leaves a disk with `Q`, a crash
-- now one with `P`.
pub record Since (s : Sys) (Q P : (ℕ → Bytes) → Type 0) (t : Sys) : Type 0 where
  pub new : List DiskOp
  pub trace : t.trace ≡ new ++ s.trace
  pub disk : t.disk ≡ replay s.disk new
  pub always : (d : ℕ → Bytes) → CrashDisk s.disk new d → Q d
  pub now : (d : ℕ → Bytes) → Persists s.disk new d → P d

-- What remains known when the run stops.
pub record Stopped (s : Sys) (Q : (ℕ → Bytes) → Type 0) (t : Sys) : Type 0 where
  pub new : List DiskOp
  pub trace : t.trace ≡ new ++ s.trace
  pub always : (d : ℕ → Bytes) → CrashDisk s.disk new d → Q d

module _ (s : Sys) (Q P : Disk → Type 0) where
  pub Since-start : P s.disk → Q s.disk → Since s Q P s
  unfolding replay Persists CrashDisk
  Since-start p q = record {
    new = [];
    trace = refl;
    disk = refl;
    always = λ d e. subst Q (sym e) q;
    now = λ d e. subst P (sym e) p;
  }

  module _ (t : Sys) (h : Since s Q P t) where
    pub Since-Stopped : (u : Sys) → u.trace ≡ t.trace → Stopped s Q u
    Since-Stopped u e = record { new = h.new; trace = e ∙ h.trace; always = h.always }

    -- A write that `P` allows.
    pub Since-write :
        (u : Sys) (x : ℕ) (b : Bytes)
        → u.trace ≡ DiskOp.write x b ∷ t.trace
        → u.disk ≡ upd t.disk x b
        → ((d : Disk) → P d → P (upd d x b))
        → ((d : Disk) → P d → Q d)
        → Since s Q P u
    unfolding replay Persists CrashDisk
    Since-write u x b et ed closed safe =
        let now : (d : Disk) → Persists s.disk (DiskOp.write x b ∷ h.new) d → P d = λ d p. elim p [
          | inl before ↦ h.now d before
          | inr (d', before, e) ↦ subst P (sym e) (closed d' (h.now d' before))
        ] in
        record {
          new = DiskOp.write x b ∷ h.new;
          trace = et ∙ ap (λ tr. DiskOp.write x b ∷ tr) h.trace;
          disk = ed ∙ ap (λ (d : Disk). upd d x b) h.disk;
          always = λ d c. elim c [ inl p ↦ safe d (now d p) | inr before ↦ h.always d before ];
          now = now;
        }

    -- After a flush only one disk is possible.
    pub Since-flush :
        (u : Sys) (P' : Disk → Type 0)
        → u.trace ≡ DiskOp.flush ∷ t.trace
        → u.disk ≡ t.disk
        → P' t.disk
        → Q t.disk
        → Since s Q P' u
    unfolding replay Persists CrashDisk
    Since-flush u P' et ed p q = record {
      new = DiskOp.flush ∷ h.new;
      trace = et ∙ ap (λ tr. DiskOp.flush ∷ tr) h.trace;
      disk = ed ∙ h.disk;
      always =
          λ d c. elim c [ inl e ↦ subst Q (h.disk ∙ sym e) q | inr before ↦ h.always d before ];
      now = λ d e. subst P' (h.disk ∙ sym e) p;
    }

    -- A state with the same disk and trace.
    pub Since-same : (u : Sys) → u.trace ≡ t.trace → u.disk ≡ t.disk → Since s Q P u
    Since-same u et ed = record {
      new = h.new;
      trace = et ∙ h.trace;
      disk = ed ∙ h.disk;
      always = h.always;
      now = h.now;
    }
