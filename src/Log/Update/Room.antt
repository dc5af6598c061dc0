-- ===== src/Log/Update/Room.antt =====
-- The room that a transaction has in the log, over several changes.
use fscq.Base.{ℕ, suc, ◌+◌, ◌≤◌, ◌<◌, ◌≡◌, ap, pos, arith}
use fscq.Memory.{Bytes}
use fscq.Params.{logsize}
use fscq.Machine.{Sys, Log}
use fscq.Log.Commit.{CanCommit}
use fscq.Log.Update.{CanLog, Logs}
use fscq.Log.Update.Header.{new_count}
use fscq.Log.Update.Read.{Keeps, Keeps-CanCommit}

-- In a transaction, `m` more blocks can be logged.
pub record HasRoom (s : Sys) (m : ℕ) : Type 0 where
  pub can : CanCommit s
  pub under_way : ℕ
  pub outstanding : s.log.outstanding ≡ pos (suc under_way)
  pub room : s.log.lh.n + m ≤ logsize
  pub space : s.log.lh.n + m < s.log.size
  pub inside : s.log.start + s.log.lh.n + m < s.image_blocks

pub HasRoom-CanLog : (s : Sys) (m x : ℕ) → HasRoom s (m + 1) → x < s.log.start → CanLog s x
HasRoom-CanLog s m x h lt = record {
  can = h.can;
  under_way = h.under_way;
  outstanding = h.outstanding;
  room = ground (arith, h.room);
  space = ground (arith, h.space);
  home = lt;
  inside = ground (arith, h.inside);
}

pub HasRoom-Keeps : (s t : Sys) (m : ℕ) → Keeps s t → HasRoom s m → HasRoom t m
HasRoom-Keeps s t m k h = record {
  can = Keeps-CanCommit s t k h.can;
  under_way = h.under_way;
  outstanding = rw k.same_log h.outstanding;
  room = rw k.same_log h.room;
  space = rw k.same_log h.space;
  inside = rw (k.same_log, k.same_image) h.inside;
}

-- A change takes the room of one block at most.
pub HasRoom-Logs :
    (s t : Sys) (m x : ℕ) (b : Bytes) → Logs s x b t → HasRoom s (m + 1) → HasRoom t m
HasRoom-Logs s t m x b l h = record {
  can = l.can;
  under_way = h.under_way;
  outstanding = rw l.new_log h.outstanding;
  room = rw l.new_log (ground (arith, h.room, new_count x s.log.lh));
  space = rw l.new_log (ground (arith, h.space, new_count x s.log.lh));
  inside = rw (l.new_log, l.same_image) (ground (arith, h.inside, new_count x s.log.lh));
}

pub same_start : (s t : Sys) (x : ℕ) (b : Bytes) → Logs s x b t → t.log.start ≡ s.log.start
same_start s t x b l = ap (λ (g : Log). g.start) l.new_log
