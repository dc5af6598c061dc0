-- ===== src/Mkfs.antt =====
-- xv6/mkfs.c, which lays out a new image. The program's globals are the record `Image`; a failed
-- assertion is `none`. A host file is its name and the chunks that `read` returns of it.
pub mod Bitmap
use fscq.Base.{
  ℕ, zero, suc, ◌+◌, ◌-◌, ◌*◌, ◌/◌, ◌%◌, min, Bool, true, false, not, ◌&&◌, ◌||◌, ◌==◌, ltb, leb,
  if◌then◌else◌, Option, none, some, List, [], ◌∷◌, contains,
}
use fscq.Memory.{
  Bytes, zeroes, shift, memmove, set_byte, set_bit, get16, get32, put16, put32, put_words,
  get_words, strncpy, cstring,
}
use fscq.Params.{
  bsize, ipb, iblock, dirsiz, dirent_size, dinode_size, ndirect, nindirect, maxfile, logsize, t_dir,
  t_file, rootino,
}

abbrev pub fs_size : ℕ
fs_size = 10000

abbrev pub ninodes : ℕ
ninodes = 4000

-- `SIZE/(BSIZE*8) + 1`
abbrev nbitmap : ℕ
nbitmap = fs_size / (bsize * 8) + 1

abbrev pub ninodeblocks : ℕ
ninodeblocks = ninodes / ipb + 1

abbrev nmeta : ℕ
nmeta = 2 + ninodeblocks + nbitmap

abbrev pub nblocks : ℕ
nblocks = fs_size - logsize - nmeta

pub record Image : Type 0 where
  pub sect : ℕ → Bytes
  pub freeinode : ℕ
  pub freeblock : ℕ

-- struct dinode, with its ten addresses
pub record Dinode : Type 0 where
  pub type : ℕ
  pub major : ℕ
  pub minor : ℕ
  pub nlink : ℕ
  pub size : ℕ
  pub ctime : ℕ
  pub atime : ℕ
  pub mtime : ℕ
  pub addrs : ℕ → ℕ

-- The value whose bytes are those of `x` in Intel order, read by a little-endian host.
unfoldable pub xshort : ℕ → ℕ
xshort x = get16 (put16 zeroes 0 x) 0

unfoldable pub xint : ℕ → ℕ
xint x = get32 (put32 zeroes 0 x) 0

unfoldable pub wsect : ℕ → Bytes → Image → Image
wsect sec b im = record im { sect = λ i. if i == sec then b else im.sect i }

unfoldable pub rsect : ℕ → Image → Bytes
rsect sec im = im.sect sec

abbrev bytes_of : Dinode → ℕ → Bytes → Bytes
bytes_of d at b =
    let b1 =
      put16 (put16 (put16 (put16 b at d.type) (at + 2) d.major) (at + 4) d.minor) (at + 6)
        d.nlink in
    let b2 =
      put32 (put32 (put32 (put32 b1 (at + 8) d.size) (at + 12) d.ctime) (at + 16) d.atime) (at + 20)
        d.mtime in
    put_words d.addrs (at + 24) 10 b2

abbrev dinode_of : Bytes → ℕ → Dinode
dinode_of b at = record {
  type = get16 b at;
  major = get16 b (at + 2);
  minor = get16 b (at + 4);
  nlink = get16 b (at + 6);
  size = get32 b (at + 8);
  ctime = get32 b (at + 12);
  atime = get32 b (at + 16);
  mtime = get32 b (at + 20);
  addrs = get_words b (at + 24) 10 (λ _. 0);
}

abbrev slot_of : ℕ → ℕ
slot_of inum = inum % ipb * dinode_size

unfoldable pub winode : ℕ → Dinode → Image → Image
unfolding wsect rsect
winode inum d im = wsect (iblock inum) (bytes_of d (slot_of inum) (rsect (iblock inum) im)) im

unfoldable pub rinode : ℕ → Image → Dinode
unfolding rsect
rinode inum im = dinode_of (rsect (iblock inum) im) (slot_of inum)

-- The inode that `ialloc` writes.
abbrev new_dinode : ℕ → Dinode
new_dinode type = record {
  type = xshort type;
  major = 0;
  minor = 0;
  nlink = xshort 1;
  size = xint 0;
  ctime = 0;
  atime = 0;
  mtime = 0;
  addrs = λ _. 0;
}

unfoldable pub ialloc : ℕ → Image → ℕ × Image
ialloc type im = (
  im.freeinode,
  winode im.freeinode (new_dinode type) (record im { freeinode = im.freeinode + 1 }),
)

-- The bitmap block with the first `used` bits set.
unfoldable pub used_bits : ℕ → Bytes
unfolding set_byte set_bit
used_bits zero = zeroes
used_bits (suc i) = let b = used_bits i in set_byte b (i / 8) (set_bit (b (i / 8)) (i % 8))

unfoldable pub balloc : ℕ → Image → Option Image
balloc used im =
    if ltb used (bsize * 8) then some (wsect (ninodeblocks + 2) (used_bits used) im) else none

-- The sector of block `fbn`, allocated where it has none.
unfoldable pub direct_block : ℕ → Dinode → Image → ℕ × Dinode × Image
direct_block fbn d im =
    if xint (d.addrs fbn) == 0
    then (
      xint (xint im.freeblock),
      record d { addrs = λ i. if i == fbn then xint im.freeblock else d.addrs i },
      record im { freeblock = im.freeblock + 1 },
    )
    else (xint (d.addrs fbn), d, im)

-- The same through the indirect block, whose own sector has been allocated.
unfoldable pub indirect_block : ℕ → Dinode → Image → ℕ × Dinode × Image
indirect_block fbn d im =
    let sec = xint (d.addrs ndirect) in
    let at = 4 * (fbn - ndirect) in
    if get32 (rsect sec im) at == 0
    then (
      xint (xint im.freeblock),
      d,
      wsect sec (put32 (rsect sec im) at (xint im.freeblock))
          (record im { freeblock = im.freeblock + 1 }),
    )
    else (xint (get32 (rsect sec im) at), d, im)

unfoldable pub block_of : ℕ → Dinode → Image → ℕ × Dinode × Image
block_of fbn d im =
    if ltb fbn ndirect
    then direct_block fbn d im
    else (let (_, d, im) = direct_block ndirect d im in indirect_block fbn d im)

-- The loop of `iappend`. Its assertion is `fbn < MAXFILE`; beyond the indirect block's 1024 words
-- the array `indirect` ends, and the result is `none` too. Over `n` bytes of `p` from offset `off` of the file.
unfoldable pub iappend_loop : ℕ → Bytes → ℕ → ℕ → Dinode → Image → Option (ℕ × Dinode × Image)
iappend_loop zero p n off d im = none
iappend_loop (suc fuel) p n off d im =
    if n == 0
    then some (off, d, im)
    else (let fbn = off / bsize in
        let (x, d, im) = block_of fbn d im in
        let n1 = min n ((fbn + 1) * bsize - off) in
        let next =
          iappend_loop fuel (shift n1 p) (n - n1) (off + n1) d
            (wsect x (memmove (rsect x im) (off - fbn * bsize) p n1) im) in
        if not (ltb fbn maxfile) || leb (ndirect + nindirect) fbn then none else next)

unfoldable pub iappend : ℕ → Bytes → ℕ → Image → Option Image
iappend inum p n im =
    let d = rinode inum im in
    elim (iappend_loop (n + 1) p n (xint d.size) d im) [
      | none ↦ none
      | some (off, d, im) ↦ some (winode inum (record d { size = xint off }) im)
    ]

-- The entry `(inum, name)`: cleared, then filled in; `strncpy` stops at 62 bytes.
unfoldable pub entry : ℕ → List ℕ → Bytes
entry inum name = strncpy (put16 zeroes 0 (xshort inum)) 2 (cstring name) 0 dirsiz

-- The `while` loop over the chunks that `read` returns of a file, each with its length.
unfoldable pub append_chunks : ℕ → List (Bytes × ℕ) → Image → Option Image
append_chunks inum [] im = some im
append_chunks inum ((p, n) ∷ rest) im = elim (iappend inum p n im) [
  | none ↦ none
  | some im ↦ append_chunks inum rest im
]

-- `if(argv[i][0] == '_') ++argv[i];`
abbrev file_name : List ℕ → List ℕ
file_name [] = []
file_name (c ∷ cs) = if c == b'_' then cs else c ∷ cs

-- One file of the command line.
unfoldable pub add_file : List ℕ → List (Bytes × ℕ) → Image → Option Image
add_file name chunks im =
    if contains b'/' name
    then none
    else (let (inum, im) = ialloc t_file im in
        elim (iappend rootino (entry inum (file_name name)) dirent_size im) [
          | none ↦ none
          | some im ↦ append_chunks inum chunks im
        ])

unfoldable pub add_files : List (List ℕ × List (Bytes × ℕ)) → Image → Option Image
add_files [] im = some im
add_files ((name, chunks) ∷ rest) im = elim (add_file name chunks im) [
  | none ↦ none
  | some im ↦ add_files rest im
]

-- The super block in its sector.
unfoldable pub superblock : Bytes
superblock =
    put32 (put32 (put32 (put32 zeroes 0 (xint fs_size)) 4 (xint nblocks)) 8 (xint ninodes)) 12
      (xint logsize)

abbrev pub blank : Image
blank = record { sect = λ _. zeroes; freeinode = 1; freeblock = nmeta }

-- "." and ".." of the root directory, in an image that has its root inode.
unfoldable pub add_dots : ℕ → Image → Option Image
add_dots root im = elim (iappend root (entry root (b'.' ∷ [])) dirent_size im) [
  | none ↦ none
  | some im ↦ iappend root (entry root (b'.' ∷ b'.' ∷ [])) dirent_size im
]

-- `off = ((off/BSIZE) + 1) * BSIZE`, for the size of the root directory.
unfoldable pub fix_root : ℕ → Image → Image
fix_root root im =
    let d = rinode root im in
    winode root (record d { size = xint ((xint d.size / bsize + 1) * bsize) }) im

unfoldable pub main : List (List ℕ × List (Bytes × ℕ)) → Option Image
main files =
    let (root, im) = ialloc t_dir (wsect 1 superblock blank) in
    if not (root == rootino) then none else elim (add_dots root im) [
      | none ↦ none
      | some im ↦ elim (add_files files im) [
        | none ↦ none
        | some im ↦ balloc im.freeblock (fix_root root im)
      ]
    ]
