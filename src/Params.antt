-- ===== src/Params.antt =====
-- The constants of xv6/param.h, xv6/fs.h, xv6/stat.h and xv6/fcntl.h. `sizeof` of the structures
-- is that of the usual ABI: a `struct dinode` is 64 bytes and a `struct dirent` 64.
use fscq.Base.{ℕ, ◌+◌, ◌/◌}

abbrev pub bsize : ℕ
bsize = 4096

abbrev pub rootino : ℕ
rootino = 1

abbrev pub rootdev : ℕ
rootdev = 1

abbrev pub ninode : ℕ
ninode = 50

abbrev pub nfile : ℕ
nfile = 100

abbrev ndev : ℕ
ndev = 10

abbrev pub maxopblocks : ℕ
maxopblocks = 10

abbrev pub logsize : ℕ
logsize = 30

abbrev pub nbuf : ℕ
nbuf = 30

abbrev pub ndirect : ℕ
ndirect = 8

-- BSIZE / sizeof(uint)
abbrev pub nindirect : ℕ
nindirect = 1024

abbrev ndindirect : ℕ
ndindirect = 1048576

abbrev pub maxfile : ℕ
maxfile = 1049608

-- BSIZE / sizeof(struct dinode)
abbrev pub ipb : ℕ
ipb = 64

-- BSIZE * 8
abbrev pub bpb : ℕ
bpb = 32768

-- sizeof(struct dinode), and sizeof(struct dirent)
abbrev pub dinode_size : ℕ
dinode_size = 64

abbrev pub dirent_size : ℕ
dirent_size = 64

abbrev pub dirsiz : ℕ
dirsiz = 62

abbrev pub t_dir : ℕ
t_dir = 1

abbrev pub t_file : ℕ
t_file = 2

abbrev pub t_dev : ℕ
t_dev = 3

abbrev pub t_sock : ℕ
t_sock = 4

-- 2 ^ 32, the modulus of `uint`
abbrev pub u32 : ℕ
u32 = 4294967296

-- IBLOCK(i)
abbrev pub iblock : ℕ → ℕ
iblock i = i / ipb + 2

-- BBLOCK(b, ninodes)
abbrev pub bblock : ℕ → ℕ → ℕ
bblock b ninodes = b / bpb + ninodes / ipb + 3
