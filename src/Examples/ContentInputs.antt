-- ===== src/Examples/ContentInputs.antt =====
-- The theorems on the block allocator, the contents of files and directories at a concrete state.
use fscq.Base.{
  ℕ, ◌+◌, ◌*◌, ◌<◌, ◌≤◌, ◌≡◌, ◌≢◌, refl, sym, ◌∙◌, ltb, arith, pos, ◌==◌, if◌then◌else◌,
}
use fscq.Memory.{Bytes, zeroes}
use fscq.Params.{bsize}
use fscq.Machine.{Sys, Inode, ◌>>=◌}
use fscq.Machine.Post.{Post}
use fscq.Bio.View.{view}
use fscq.Log.Update.Read.{Keeps, Untouched}
use fscq.Log.Update.Room.{HasRoom}
use fscq.Fs.Content.{readi, writei}
use fscq.Fs.Content.Blocks.{addr_at, byte_at}
use fscq.Fs.Content.Readi.{ReadsBytes, readi-ReadsBytes}
use fscq.Fs.Content.Writes.{IsOwn}
use fscq.Fs.Content.WriteLoop.{Wrote, blocks}
use fscq.Fs.Content.Writei.{writei-Wrote, readi-writei}
use fscq.Fs.Dir.{dirlookup, dirlink}
use fscq.Fs.Dir.Link.{Links, dirlink-Links}
use fscq.Fs.Dir.Entries.{IsDir, find_entry}
use fscq.Fs.Dir.Lookup.{LooksUp, dirlookup-LooksUp}
use fscq.Fs.Inode.Table.{IsTable}
use fscq.Examples.Everything.{everything}
use fscq.Examples.FileInputs.{an_inode}
use fscq.Examples.UpdateInputs.{with_table, with_table-CanCommit}

-- A directory of two entries in block 20, and a file of 100 bytes in block 21.
abbrev directory : Inode
directory = record an_inode {
  dev = 1;
  inum = 1;
  ref = pos 1;
  type = 1;
  size = 128;
  addrs = λ _. 20;
}

abbrev pub small_file : Inode
small_file = record an_inode { dev = 1; inum = 5; ref = pos 1; size = 100; addrs = λ _. 21 }

abbrev in_use_state : Sys
in_use_state = with_table (λ i.
    if i == 0 then directory else if i == 1 then small_file else record an_inode { ref = pos 0 })

in_use_state-HasRoom : (m : ℕ) → m < 20 → HasRoom in_use_state m
in_use_state-HasRoom m lt = record {
  can = with_table-CanCommit in_use_state.inode;
  under_way = 0;
  outstanding = refl;
  room = omega arith;
  space = omega arith;
  inside = omega arith;
}

-- The inodes have one block each.
module _ (s : Sys) (start : s.log.start ≡ 9970) (image_end : s.image_blocks ≡ 10000) (ip : Inode)
    (a : ℕ) (on_device : ip.dev ≡ 1) (short : ip.size ≤ 128) (direct : (bn : ℕ) → ip.addrs bn ≡ a)
    (there : a ≢ 0) (home : a < 9970) where
  only_block : (bn : ℕ) → bn * bsize < ip.size → bn ≡ 0
  only_block bn lt = omega (arith, short)

  at_a : (bn : ℕ) → bn * bsize < ip.size → addr_at s ip bn ≡ a
  unfolding addr_at
  at_a bn lt = rw (only_block bn lt) (direct 0)

  pub one_block-IsOwn : IsOwn s ip
  one_block-IsOwn = record {
    file = record {
      on_device = on_device;
      short = omega (arith, short);
      mapped = λ bn lt e. there (sym (at_a bn lt) ∙ e);
      inside = λ bn lt. rw (at_a bn lt, image_end) (omega (arith, home));
      indirect = λ lt. absurd (omega (arith, short));
      indirect_inside = λ lt. absurd (omega (arith, short));
    };
    small = rw start (omega arith);
    home = λ bn lt. rw (at_a bn lt, start) home;
    distinct = λ bn bm lt lt' e. only_block bn lt ∙ sym (only_block bm lt');
    apart = λ bn lt long. absurd (omega (arith, short));
  }

small_file-IsOwn : IsOwn in_use_state small_file
small_file-IsOwn =
    one_block-IsOwn in_use_state refl refl small_file 21 refl (omega arith) (λ bn. refl)
      (omega arith) (omega arith)

directory-IsOwn : IsOwn in_use_state directory
directory-IsOwn =
    one_block-IsOwn in_use_state refl refl directory 20 refl (omega arith) (λ bn. refl)
      (omega arith) (omega arith)

directory-IsDir : IsDir in_use_state directory
directory-IsDir = record { file = directory-IsOwn.file; is_dir = refl; whole = refl }

-- 90 bytes from byte 20 on, of which the file has 80.
readi-ReadsBytes_example :
    Post
      (λ r t. ReadsBytes in_use_state small_file zeroes 20 90 r × Keeps in_use_state t)
      (Keeps in_use_state)
      (readi 1 zeroes 20 90 in_use_state)
readi-ReadsBytes_example =
    readi-ReadsBytes in_use_state 1 (in_use_state-HasRoom 2 (omega arith)).can.quiet
      small_file-IsOwn.file zeroes 20 90 (omega arith) (omega arith)

-- The bytes that the examples write.
abbrev written : Bytes
written j = 60 + j

writei-Wrote_example :
    Post
      (λ r t. (r ≡ pos 30) × Wrote in_use_state small_file 20 0 30 written t)
      (Untouched in_use_state)
      (writei 1 written 20 30 in_use_state)
writei-Wrote_example =
    writei-Wrote in_use_state 1 written 20 30 small_file-IsOwn
      (in_use_state-HasRoom (blocks 20 30) (omega arith)) (omega arith) (omega arith)

readi-writei_example :
    Post
      (λ r _. (r.0 ≡ pos 30) × ((k : ℕ) → r.1 k ≡ (if ltb k 30 then written k else 0)))
      (Untouched in_use_state)
      ((writei 1 written 20 30 >>= λ _. readi 1 zeroes 20 30) in_use_state)
readi-writei_example =
    readi-writei in_use_state 1 written 20 30 small_file-IsOwn
      (in_use_state-HasRoom (blocks 20 30) (omega arith)) (omega arith) (omega arith) zeroes

in_use_state-IsTable : IsTable in_use_state.inode
in_use_state-IsTable = record { unique = λ d n i j hi hj ci cj. ground (arith, ci, cj) }

-- "a"
abbrev name_a : Bytes
name_a j = if j == 0 then 97 else 0

dirlookup-LooksUp_example :
    Post
      (LooksUp in_use_state 0 directory-IsDir name_a)
      (Keeps in_use_state)
      (dirlookup 0 name_a in_use_state)
dirlookup-LooksUp_example =
    dirlookup-LooksUp in_use_state 0 directory-IsDir name_a
      (in_use_state-HasRoom 2 (omega arith)).can.quiet in_use_state-IsTable
      (λ inum full. (full 2 (omega arith)).1 refl)

-- "b"
abbrev name_b : Bytes
name_b j = if j == 0 then 98 else 0

dirlink-Links_example :
    Post
      (λ r t. (r ≡ pos 0) × Links in_use_state directory name_b 7 t)
      (Untouched in_use_state)
      (dirlink 0 name_b 7 in_use_state)
unfolding everything view byte_at addr_at find_entry
dirlink-Links_example =
    dirlink-Links in_use_state 0 directory-IsDir directory-IsOwn
      (in_use_state-HasRoom 1 (omega arith)) name_b 7 (omega arith) (omega arith) refl 1
      (omega arith) refl in_use_state-IsTable (λ inum full. (full 2 (omega arith)).1 refl)
