-- ===== src/Fs/Path/Rounds.antt =====
-- The rounds that the loop of `namex` of xv6/fs.c is given.
use fscq.Base.{
  ℕ, zero, suc, ◌+◌, ◌<◌, ◌&&◌, ◌==◌, not, Bool, true, false, if◌then◌else◌, Option, none, some,
  List, [], ◌∷◌, length, arith,
}
use fscq.Memory.{Bytes, zeroes}
use fscq.Params.{t_dir, rootdev, rootino}
use fscq.Machine.{Inode, pure, ◌>>◌}
use fscq.Machine.Fuel.{
  IsFueled, fueled, pure-IsFueled, bind-IsFueled, if-IsFueled, gets-IsFueled, Option-IsFueled,
  undefined-IsFueled,
}
use fscq.Fs.Inode.Rounds.{iget-IsFueled, ilock-IsFueled, iunlock-IsFueled}
use fscq.Fs.Content.{iput}
use fscq.Fs.Content.Rounds.{iput-IsFueled, iunlockput-IsFueled}
use fscq.Fs.Dir.Rounds.{dirlookup-IsFueled}
use fscq.Fs.Path.{FilePath, skipelem, namex_loop, namex, namei, nameiparent, at_end, starts_with}
use fscq.Fs.Path.Elements.{elements, Peels, skipelem-Peels}

last_round-IsFueled :
    (parent : Bool) (ip : ℕ) (name : Bytes)
    → IsFueled {A = Option ℕ × Bytes}
        (if parent then (iput ip >> pure (none, name)) else pure (some ip, name))
last_round-IsFueled parent ip name = search (fueled, iput-IsFueled)

-- A round that takes an element, whatever the rounds after it are given.
peeled-IsFueled :
    (fuel : ℕ) (parent : Bool) (ip : ℕ) (path : FilePath) (name : Bytes) (es : List (List ℕ))
    → Peels path name es (skipelem path name)
    → ((next : ℕ) (rest : FilePath) (name' : Bytes)
        → length rest < length path
        → IsFueled (namex_loop fuel parent next rest name'))
    → IsFueled (namex_loop (suc fuel) parent ip path name)
unfolding namex_loop
peeled-IsFueled fuel parent ip path name [] p more =
    rw (namex_loop, p) (last_round-IsFueled parent ip name)
peeled-IsFueled fuel parent ip path name (e ∷ es) (rest, name', p, _, _, _, shorter) more =
    rw (namex_loop, p)
      (bind-IsFueled (ilock-IsFueled ip) (λ _.
        bind-IsFueled {A = Inode} (gets-IsFueled (λ s. s.inode ip)) (λ d.
          if-IsFueled (not (d.type == t_dir))
            (bind-IsFueled (iunlockput-IsFueled ip) (λ _. pure-IsFueled (none, name')))
            (if-IsFueled (parent && at_end rest)
              (bind-IsFueled (iunlock-IsFueled ip) (λ _. pure-IsFueled (some ip, name')))
              (bind-IsFueled (dirlookup-IsFueled ip name') (λ found.
                bind-IsFueled (iunlockput-IsFueled ip) (λ _.
                  Option-IsFueled found (pure-IsFueled (none, name'))
                    (λ q. more q.0 rest name' shorter))))))))

namex_loop-IsFueled :
    (fuel : ℕ) (parent : Bool) (ip : ℕ) (path : FilePath) (name : Bytes)
    → length path < fuel
    → IsFueled (namex_loop fuel parent ip path name)
namex_loop-IsFueled zero parent ip path name h = absurd (omega arith)
namex_loop-IsFueled (suc fuel) parent ip path name h =
    peeled-IsFueled fuel parent ip path name (elements path) (skipelem-Peels path name)
      (λ next rest name' shorter. namex_loop-IsFueled fuel parent next rest name' (omega arith))

-- From every state, `namex` of any path never stops for lack of rounds: one for each character of
-- the path and one more are enough.
pub namex-IsFueled :
    (path : FilePath) (parent : Bool) (name : Bytes) → IsFueled (namex path parent name)
unfolding namex
namex-IsFueled path parent name =
    if-IsFueled (starts_with b'/' path)
      (bind-IsFueled (iget-IsFueled rootdev rootino)
        (λ ip. namex_loop-IsFueled (length path + 1) parent ip path name (omega arith)))
      undefined-IsFueled

namei-IsFueled : (path : FilePath) → IsFueled (namei path)
unfolding namei
namei-IsFueled path = bind-IsFueled (namex-IsFueled path false zeroes) (λ r. pure-IsFueled r.0)

nameiparent-IsFueled : (path : FilePath) (name : Bytes) → IsFueled (nameiparent path name)
unfolding nameiparent
nameiparent-IsFueled path name = namex-IsFueled path true name
