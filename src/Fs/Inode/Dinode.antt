-- ===== src/Fs/Inode/Dinode.antt =====
-- The dinode that `iupdate` of xv6/fs.c stores, against the one that `ilock` loads.
use fscq.Base.{ℕ, ◌+◌, ◌*◌, ◌≤◌, ◌<◌, ◌≡◌, ◌⊎◌, inl, arith, ◌∙◌}
use fscq.Memory.{Bytes, get16, get32, put16, get_words}
use fscq.Memory.Fields.{get32-put32, get16-put16_ne, get32-put16_ne, get16-put32_ne, get32-put32_ne}
use fscq.Memory.Words.{get32-put_words, get32-put_words_ne, get16-put_words_ne, get_words_lem}
use fscq.Machine.{Inode}
use fscq.Fs.Inode.{get_dinode, put_dinode, put_shorts, put_ints, naddrs}

-- Every field fits its C type.
pub record IsInRange (ip : Inode) : Type 0 where
  pub type : ip.type < 65536
  pub major : ip.major < 65536
  pub minor : ip.minor < 65536
  pub nlink : ip.nlink < 65536
  pub size : ip.size < 4294967296
  pub ctime : ip.ctime < 4294967296
  pub atime : ip.atime < 4294967296
  pub mtime : ip.mtime < 4294967296
  pub addrs : (i : ℕ) → i < naddrs → ip.addrs i < 4294967296

-- The fields of a dinode, of which an inode on disk consists.
pub record SameDinode (ip jp : Inode) : Type 0 where
  pub type : ip.type ≡ jp.type
  pub major : ip.major ≡ jp.major
  pub minor : ip.minor ≡ jp.minor
  pub nlink : ip.nlink ≡ jp.nlink
  pub size : ip.size ≡ jp.size
  pub ctime : ip.ctime ≡ jp.ctime
  pub atime : ip.atime ≡ jp.atime
  pub mtime : ip.mtime ≡ jp.mtime
  pub addrs : (i : ℕ) → i < naddrs → ip.addrs i ≡ jp.addrs i

-- The four shorts, and the four ints, in any buffer.
module _ (ip : Inode) (at : ℕ) (b : Bytes) (r : IsInRange ip) where
  put_shorts_fields :
      (get16 (put_shorts ip at b) at ≡ ip.type)
      × (get16 (put_shorts ip at b) (at + 2) ≡ ip.major)
      × (get16 (put_shorts ip at b) (at + 4) ≡ ip.minor)
      × (get16 (put_shorts ip at b) (at + 6) ≡ ip.nlink)
  unfolding put_shorts get16 put16
  put_shorts_fields = (
    ground (arith, r.type),
    ground (arith, r.major),
    ground (arith, r.minor),
    ground (arith, r.nlink),
  )

  put_ints_fields :
      (get32 (put_ints ip at b) (at + 8) ≡ ip.size)
      × (get32 (put_ints ip at b) (at + 12) ≡ ip.ctime)
      × (get32 (put_ints ip at b) (at + 16) ≡ ip.atime)
      × (get32 (put_ints ip at b) (at + 20) ≡ ip.mtime)
  unfolding put_ints
  put_ints_fields = (
    grind (arith, get32-put32, get32-put32_ne),
    grind (arith, get32-put32, get32-put32_ne),
    grind (arith, get32-put32, get32-put32_ne),
    grind (arith, get32-put32, get32-put32_ne),
  )

module _ (ip : Inode) (at : ℕ) (b : Bytes) (a : ℕ) where
  get16-put_ints : (a + 2 ≤ at + 8) ⊎ (at + 24 ≤ a) → get16 (put_ints ip at b) a ≡ get16 b a
  unfolding put_ints
  get16-put_ints h = grind (arith, get16-put32_ne)

  get32-put_ints_ne : (a + 4 ≤ at + 8) ⊎ (at + 24 ≤ a) → get32 (put_ints ip at b) a ≡ get32 b a
  unfolding put_ints
  get32-put_ints_ne h = grind (arith, get32-put32_ne)

  get16-put_shorts_ne : (a + 2 ≤ at) ⊎ (at + 8 ≤ a) → get16 (put_shorts ip at b) a ≡ get16 b a
  unfolding put_shorts
  get16-put_shorts_ne h = grind (arith, get16-put16_ne)

  get32-put_shorts_ne : (a + 4 ≤ at) ⊎ (at + 8 ≤ a) → get32 (put_shorts ip at b) a ≡ get32 b a
  unfolding put_shorts
  get32-put_shorts_ne h = grind (arith, get32-put16_ne)

-- A dinode takes up 60 of its 64 bytes, and no others.
module _ (ip : Inode) (at : ℕ) (b : Bytes) (a : ℕ) where
  get16-put_dinode_ne : (a + 2 ≤ at) ⊎ (at + 60 ≤ a) → get16 (put_dinode ip at b) a ≡ get16 b a
  unfolding put_dinode
  get16-put_dinode_ne h = ground (
    arith,
    get16-put_words_ne ip.addrs (at + 24) naddrs (put_ints ip at (put_shorts ip at b)) a,
    get16-put_ints ip at (put_shorts ip at b) a,
    get16-put_shorts_ne ip at b a,
  )

  get32-put_dinode_ne : (a + 4 ≤ at) ⊎ (at + 60 ≤ a) → get32 (put_dinode ip at b) a ≡ get32 b a
  unfolding put_dinode
  get32-put_dinode_ne h = ground (
    arith,
    get32-put_words_ne ip.addrs (at + 24) naddrs (put_ints ip at (put_shorts ip at b)) a,
    get32-put_ints_ne ip at (put_shorts ip at b) a,
    get32-put_shorts_ne ip at b a,
  )

-- A field that is read from a stored dinode, by the part that it stands in.
module _ (ip : Inode) (at : ℕ) (b : Bytes) where
  short_field :
      (a : ℕ) → a + 2 ≤ at + 8 → get16 (put_dinode ip at b) a ≡ get16 (put_shorts ip at b) a
  unfolding put_dinode
  short_field a h = ground (
    arith,
    get16-put_words_ne ip.addrs (at + 24) naddrs (put_ints ip at (put_shorts ip at b)) a,
    get16-put_ints ip at (put_shorts ip at b) a,
  )

  int_field :
      (a : ℕ)
      → a + 4 ≤ at + 24
      → get32 (put_dinode ip at b) a ≡ get32 (put_ints ip at (put_shorts ip at b)) a
  unfolding put_dinode
  int_field a h =
      get32-put_words_ne ip.addrs (at + 24) naddrs (put_ints ip at (put_shorts ip at b)) a
        (inl (omega arith))

addrs_field :
    (ip jp : Inode) (at : ℕ) (b : Bytes)
    → IsInRange ip
    → (i : ℕ) → i < naddrs
    → get_words (put_dinode ip at b) (at + 24) naddrs jp.addrs i ≡ ip.addrs i
unfolding put_dinode
addrs_field ip jp at b r i h = ground (
  arith,
  get_words_lem (put_dinode ip at b) (at + 24) naddrs jp.addrs i,
  r.addrs i h,
  get32-put_words ip.addrs (at + 24) naddrs (put_ints ip at (put_shorts ip at b)) i,
)

-- What `iupdate` stores of an inode whose fields fit their types, `ilock` reads back, into an
-- entry with any contents `jp`.
pub get_dinode-put_dinode :
    (ip jp : Inode) (at : ℕ) (b : Bytes)
    → IsInRange ip
    → SameDinode (get_dinode (put_dinode ip at b) at jp) ip
unfolding get_dinode
get_dinode-put_dinode ip jp at b r =
    let shorts = put_shorts_fields ip at b r in
    let ints = put_ints_fields ip at (put_shorts ip at b) r in
    record {
      type = short_field ip at b at (omega arith) ∙ shorts.0;
      major = short_field ip at b (at + 2) (omega arith) ∙ shorts.1;
      minor = short_field ip at b (at + 4) (omega arith) ∙ shorts.2;
      nlink = short_field ip at b (at + 6) (omega arith) ∙ shorts.3;
      size = int_field ip at b (at + 8) (omega arith) ∙ ints.0;
      ctime = int_field ip at b (at + 12) (omega arith) ∙ ints.1;
      atime = int_field ip at b (at + 16) (omega arith) ∙ ints.2;
      mtime = int_field ip at b (at + 20) (omega arith) ∙ ints.3;
      addrs = addrs_field ip jp at b r;
    }

-- A store of a dinode at one place leaves the dinode that is read at another, 64 bytes off or
-- more, as it was.
pub get_dinode-put_dinode_ne :
    (ip jp : Inode) (at a : ℕ) (b : Bytes)
    → (a + 64 ≤ at) ⊎ (at + 64 ≤ a)
    → SameDinode (get_dinode (put_dinode ip at b) a jp) (get_dinode b a jp)
unfolding get_dinode
get_dinode-put_dinode_ne ip jp at a b h = record {
  type = get16-put_dinode_ne ip at b a (omega arith);
  major = get16-put_dinode_ne ip at b (a + 2) (omega arith);
  minor = get16-put_dinode_ne ip at b (a + 4) (omega arith);
  nlink = get16-put_dinode_ne ip at b (a + 6) (omega arith);
  size = get32-put_dinode_ne ip at b (a + 8) (omega arith);
  ctime = get32-put_dinode_ne ip at b (a + 12) (omega arith);
  atime = get32-put_dinode_ne ip at b (a + 16) (omega arith);
  mtime = get32-put_dinode_ne ip at b (a + 20) (omega arith);
  addrs = λ i hi. ground (
    arith,
    get_words_lem (put_dinode ip at b) (a + 24) naddrs jp.addrs i,
    get_words_lem b (a + 24) naddrs jp.addrs i,
    get32-put_dinode_ne ip at b (a + 24 + 4 * i),
  );
}
