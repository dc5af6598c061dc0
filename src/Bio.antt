-- ===== src/Bio.antt =====
-- The buffer cache, xv6/bio.c. A pointer to a buffer is its index in `bcache.buf`. The circular
-- list through `prev` and `next` is the list of the indices from `head.next` on: a walk along
-- `next` reads it forwards, a walk along `prev` backwards.
pub mod Release
pub mod Write
pub mod Read
pub mod Steps
pub mod Replace
pub mod Rounds
pub mod View
use fscq.Base.{
  ℕ, Bool, true, false, ◌&&◌, not, ◌==◌, if◌then◌else◌, Option, none, some, List, [], ◌∷◌, reverse,
  erase, down_from,
}
use fscq.Params.{nbuf}
use fscq.Machine.{
  Buf, Cache, Sys, M, Void, ◌>>=◌, ◌>>◌, pure, panic, gets, modify, when, wait_for_ever, upd,
  get_buf, set_buf, put_buf, bget_no_buffers, bwrite_not_busy, brelse_not_busy,
}
use fscq.Ide.{iderw}

-- Each buffer is put in front in turn, with `b->dev = -1`.
unfoldable pub binit : M Void
binit = modify λ s. record s {
  cache = record { buf = λ i. record (s.cache.buf i) { dev = 4294967295 }; order = down_from nbuf };
}

-- `b->dev == dev && b->sector == sector`
abbrev pub holds : ℕ → ℕ → Buf → Bool
holds dev sector b = b.dev == dev && b.sector == sector

-- The first loop of `bget`: the buffer of the sector, if it is cached.
unfoldable pub find_cached : (ℕ → Buf) → ℕ → ℕ → List ℕ → Option ℕ
find_cached buf dev sector [] = none
find_cached buf dev sector (i ∷ is) =
    if holds dev sector (buf i) then some i else find_cached buf dev sector is

-- `(b->flags & B_BUSY) == 0 && (b->flags & B_DIRTY) == 0`
abbrev pub is_free : Buf → Bool
is_free b = not b.busy && not b.dirty

-- The second loop of `bget`, over the list in its other direction.
unfoldable pub find_free : (ℕ → Buf) → List ℕ → Option ℕ
find_free buf [] = none
find_free buf (i ∷ is) = if is_free (buf i) then some i else find_free buf is

abbrev pub recycle : ℕ → ℕ → Buf → Buf
recycle dev sector b = record b {
  dev = dev;
  sector = sector;
  busy = true;
  valid = false;
  dirty = false;
}

-- `bget`, on what its two loops find. The wait for a busy buffer never ends: `sleep` returns at
-- once, and nothing clears the flag.
unfoldable pub claim : ℕ → ℕ → Option ℕ → Option ℕ → M ℕ
claim dev sector (some i) _ = do
  b ← get_buf i
  if b.busy then wait_for_ever else do set_buf i (record b { busy = true }); pure i
claim dev sector none (some i) = do b ← get_buf i; set_buf i (recycle dev sector b); pure i
claim dev sector none none = panic bget_no_buffers

unfoldable pub bget : ℕ → ℕ → M ℕ
unfolding claim
bget dev sector s =
    claim dev sector (find_cached s.cache.buf dev sector s.cache.order)
      (find_free s.cache.buf (reverse s.cache.order)) s

unfoldable pub bread : ℕ → ℕ → M ℕ
unfolding bget iderw
bread dev sector = do i ← bget dev sector; b ← get_buf i; when (not b.valid) (iderw i); pure i

unfoldable pub bwrite : ℕ → M Void
unfolding iderw
bwrite i = do
  b ← get_buf i
  if not b.busy then panic bwrite_not_busy else do set_buf i (record b { dirty = true }); iderw i

-- Take the buffer out of the list and put it behind the head.
abbrev pub to_front : ℕ → List ℕ → List ℕ
to_front i is = i ∷ erase i is

unfoldable pub brelse : ℕ → M Void
brelse i = do
  b ← get_buf i
  if not b.busy
      then panic brelse_not_busy
      else modify λ s. record s {
        cache = record {
          buf = upd s.cache.buf i (record (s.cache.buf i) { busy = false });
          order = to_front i s.cache.order;
        };
      }
