-- ===== src/Fs/Inode/Table.antt =====
-- The table of the inode cache, and the scan of `iget` of xv6/fs.c.
use fscq.Base.{
  ℕ, zero, suc, ◌+◌, ◌≤◌, ◌<◌, ◌≡◌, refl, ◌≢◌, ◌⊎◌, inl, inr, true, false, arith, ◌==◌, Bool-cases,
  ==_iff, subst, Option, none, some, pos, suc_ℤ,
}
use fscq.Params.{ninode}
use fscq.Machine.{Inode, Sys, ok, panicked, upd, iget_no_inodes}
use fscq.Fs.Inode.{Slot, hit, empty, is_cached, note_empty, iget_scan, iget}

-- What the scan of the entries from `i` to `j` returns, with `e` the empty one noted before.
abbrev Scanned : (ℕ → Inode) → ℕ → ℕ → Option ℕ → ℕ → ℕ → Slot → Type 0
Scanned inode dev inum e i j (hit r) = (i ≤ r) × (r < j) × (is_cached dev inum (inode r) ≡ true)
Scanned inode dev inum e i j (empty o) =
    ((r : ℕ) → i ≤ r → r < j → is_cached dev inum (inode r) ≡ false)
    × ((x : ℕ) → o ≡ some x → (e ≡ some x) ⊎ ((i ≤ x) × (x < j) × ((inode x).ref ≡ pos 0)))
    × (o ≡ none → (e ≡ none) × ((r : ℕ) → i ≤ r → r < j → (inode r).ref ≢ pos 0))

noted_cases :
    (ip : Inode) (i x : ℕ) (e : Option ℕ)
    → note_empty ip i e ≡ some x
    → (e ≡ some x) ⊎ ((x ≡ i) × (ip.ref ≡ pos 0))
noted_cases ip i x none h = inr (ground arith)
noted_cases ip i x (some y) h = inl h

not_noted :
    (ip : Inode) (i : ℕ) (e : Option ℕ) → note_empty ip i e ≡ none → (e ≡ none) × (ip.ref ≢ pos 0)
not_noted ip i none h = (refl, λ z. ground arith)
not_noted ip i (some y) h = cc

Scanned-step :
    (inode : ℕ → Inode) (dev inum : ℕ) (e : Option ℕ) (i j : ℕ) (r : Slot)
    → is_cached dev inum (inode i) ≡ false
    → i < j
    → Scanned inode dev inum (note_empty (inode i) i e) (i + 1) j r
    → Scanned inode dev inum e i j r
Scanned-step inode dev inum e i j (hit r) miss lt h = (omega arith, omega arith, h.2)
Scanned-step inode dev inum e i j (empty o) miss lt (none_cached, from_scan, all_used) = (
  λ r p q. elim (Bool-cases (i == r)) [
    | inl same ↦ ground arith
    | inr later ↦ none_cached r (ground arith) q
  ],
  λ x eo. elim (from_scan x eo) [
    | inl noted ↦ elim (noted_cases (inode i) i x e noted) [
      | inl before ↦ inl before
      | inr (same, zero_ref) ↦ inr (omega arith, omega arith, rw same zero_ref)
    ]
    | inr found ↦ inr (omega arith, found.1, found.2)
  ],
  λ eo.
      let (ne, later) = all_used eo in
      let (none_before, used) = not_noted (inode i) i e ne in
      (
        none_before,
        λ r p q. elim (Bool-cases (i == r)) [
          | inl same ↦ rw (← (==_iff i r).0 same) used
          | inr above ↦ later r (ground arith) q
        ],
      ),
)

shift_end : (i k : ℕ) → i + 1 + k ≡ i + suc k
shift_end i k = omega arith

iget_scan-Scanned :
    (inode : ℕ → Inode) (dev inum k i : ℕ) (e : Option ℕ)
    → Scanned inode dev inum e i (i + k) (iget_scan inode dev inum e i k)
unfolding iget_scan
iget_scan-Scanned inode dev inum zero i e =
    (λ r p q. absurd (omega arith), λ x eo. inl eo, λ eo. (eo, λ r p q. absurd (omega arith)))
iget_scan-Scanned inode dev inum (suc k) i e = elim (Bool-cases (is_cached dev inum (inode i))) [
  | inl found ↦ rw found (omega arith, omega arith, found)
  | inr miss ↦ rw miss (
      Scanned-step inode dev inum e i (i + suc k) _ miss (omega arith) (
        subst
          (λ j.
            Scanned inode dev inum (note_empty (inode i) i e) (i + 1) j
              (iget_scan inode dev inum (note_empty (inode i) i e) (i + 1) k))
          (shift_end i k) (iget_scan-Scanned inode dev inum k (i + 1) (note_empty (inode i) i e))))
]

-- No two entries of the table are for the same inode.
pub record IsTable (inode : ℕ → Inode) : Type 0 where
  pub unique :
      (dev inum i j : ℕ)
      → i < ninode
      → j < ninode
      → is_cached dev inum (inode i) ≡ true
      → is_cached dev inum (inode j) ≡ true
      → i ≡ j

-- What `iget` promises: the entry `i` is for the inode, with one reference more than before, where
-- an entry that was made for it had none; and no other entry has changed, nor anything but the table.
pub record Gets (s : Sys) (dev inum i : ℕ) (t : Sys) : Type 0 where
  pub in_table : i < ninode
  pub cached : is_cached dev inum (t.inode i) ≡ true
  pub counted :
      ((is_cached dev inum (s.inode i) ≡ true)
        × ((t.inode i).ref ≡ suc_ℤ (s.inode i).ref)
        × ((t.inode i).valid ≡ (s.inode i).valid)
        × ((t.inode i).busy ≡ (s.inode i).busy))
      ⊎ (((r : ℕ) → r < ninode → is_cached dev inum (s.inode r) ≡ false)
          × ((s.inode i).ref ≡ pos 0)
          × ((t.inode i).ref ≡ pos 1)
          × ((t.inode i).valid ≡ false)
          × ((t.inode i).busy ≡ false))
  pub others : (j : ℕ) → j ≢ i → t.inode j ≡ s.inode j
  pub table : IsTable t.inode
  pub only_table : t ≡ record s { inode = t.inode }

-- `iget` finds no entry and has none to make one in.
abbrev pub IsFull : (ℕ → Inode) → ℕ → ℕ → Type 0
IsFull inode dev inum =
    (r : ℕ) → r < ninode → (is_cached dev inum (inode r) ≡ false) × ((inode r).ref ≢ pos 0)

module _ (s : Sys) (dev inum : ℕ) (table : IsTable s.inode) where
  Gets-hit :
      (i : ℕ)
      → i < ninode
      → is_cached dev inum (s.inode i) ≡ true
      → Gets s dev inum i
          (record s { inode = upd s.inode i (record (s.inode i) { ref = suc_ℤ (s.inode i).ref }) })
  Gets-hit i lt found = record {
    in_table = lt;
    cached = ground arith;
    counted = inl (found, ground arith, ground arith, ground arith);
    others = λ j ne. ground arith;
    table = record {
      unique = λ d n j k hj hk cj ck.
          table.unique d n j k hj hk (ground (arith, cj)) (ground (arith, ck));
    };
    only_table = refl;
  }

  Gets-new :
      (i : ℕ)
      → i < ninode
      → (s.inode i).ref ≡ pos 0
      → ((r : ℕ) → r < ninode → is_cached dev inum (s.inode r) ≡ false)
      → Gets s dev inum i (record s {
        inode = upd s.inode i (record (s.inode i) {
          dev = dev;
          inum = inum;
          ref = pos 1;
          busy = false;
          valid = false;
        });
      })
  Gets-new i lt unused absent = record {
    in_table = lt;
    cached = ground arith;
    counted = inr (absent, unused, ground arith, ground arith, ground arith);
    others = λ j ne. ground arith;
    table = record {
      unique = λ d n j k hj hk cj ck.
          ground (arith, cj, ck, absent j hj, absent k hk, table.unique d n j k hj hk);
    };
    only_table = refl;
  }

  iget-from :
      (r : Slot)
      → iget_scan s.inode dev inum none 0 ninode ≡ r
      → Scanned s.inode dev inum none 0 ninode r
      → ((i : ℕ) × (t : Sys) × (iget dev inum s ≡ ok i t) × Gets s dev inum i t)
        ⊎ ((iget dev inum s ≡ panicked iget_no_inodes s) × IsFull s.inode dev inum)
  unfolding iget
  iget-from (hit i) e (lo, lt, found) = inl (i, _, rw e refl, Gets-hit i lt found)
  iget-from (empty none) e (absent, from, full) =
      inr (rw e refl, λ r lt. (absent r (omega arith) lt, (full refl).1 r (omega arith) lt))
  iget-from (empty (some i)) e (absent, from, full) = elim (from i refl) [
    | inl before ↦ cc
    | inr (lo, lt, unused) ↦
        inl (i, _, rw e refl, Gets-new i lt unused (λ r h. absent r (omega arith) h))
  ]

  -- Over a table with at most one entry for an inode, `iget` returns the entry of the inode,
  -- counted and alone in the table, a new one only where there was none, with no other entry
  -- and nothing but the table changed; or it panics, and then no entry is for the inode and
  -- none is free.
  pub iget-Gets :
      ((i : ℕ) × (t : Sys) × (iget dev inum s ≡ ok i t) × Gets s dev inum i t)
      ⊎ ((iget dev inum s ≡ panicked iget_no_inodes s) × IsFull s.inode dev inum)
  iget-Gets =
      iget-from (iget_scan s.inode dev inum none 0 ninode) refl
        (iget_scan-Scanned s.inode dev inum ninode 0 none)
