-- ===== src/Sysfile/Rounds.antt =====
-- The calls of xv6/sysfile.c that open, read and write files have rounds enough.
use fscq.Base.{ℕ, Option, none, some, minus_one}
use fscq.Memory.{Bytes}
use fscq.Machine.Fuel.{IsFueled, fueled, pure-IsFueled}
use fscq.File.Rounds.{fileread-IsFueled, filewrite-IsFueled}
use fscq.Sysfile.Open.{sys_read, sys_write}

-- From every state, `sys_read` of any file, size and offset never stops for lack of rounds: the
-- loop of `readi` has enough of them.
pub sys_read-IsFueled : (f : Option ℕ) (buf : Bytes) (sz off : ℕ) → IsFueled (sys_read f buf sz off)
unfolding sys_read
sys_read-IsFueled none buf sz off = pure-IsFueled (minus_one, buf)
sys_read-IsFueled (some f) buf sz off = search (fueled, fileread-IsFueled)

-- From every state, `sys_write` of any file, size and offset never stops for lack of rounds: the
-- loops of `filewrite`, `zeroi` and `writei` have enough of them.
pub sys_write-IsFueled :
    (f : Option ℕ) (buf : Bytes) (sz off : ℕ) → IsFueled (sys_write f buf sz off)
unfolding sys_write
sys_write-IsFueled none buf sz off = pure-IsFueled minus_one
sys_write-IsFueled (some f) buf sz off = search (fueled, filewrite-IsFueled)
