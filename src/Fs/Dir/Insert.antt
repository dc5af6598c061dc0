-- ===== src/Fs/Dir/Insert.antt =====
-- The entries of a directory of xv6/fs.c after one of them has been written.
use fscq.Base.{
  ℕ, zero, suc, ◌+◌, ◌-◌, ◌*◌, ◌%◌, ◌≤◌, ◌<◌, ◌≡◌, ◌≢◌, refl, sym, ap, ◌∙◌, subst, true, false,
  arith, ◌==◌, ==_iff, Bool, Bool-cases, inl, inr, if◌then◌else◌, Option, none, some,
}
use fscq.Memory.{Bytes, shift, put16, strncpy}
use fscq.Memory.Fields.{get16-put16}
use fscq.Memory.Strings.{strncmp_eq-same, strncmp_eq-congr, strncmp_eq-strncpy}
use fscq.Params.{dirsiz, dirent_size}
use fscq.Machine.{Sys, Inode}
use fscq.Fs.Content.Blocks.{byte_at}
use fscq.Fs.Content.WriteLoop.{Wrote}
use fscq.Fs.Dir.{de_inum, de_name, namecmp_eq}
use fscq.Fs.Dir.Entries.{entry, names, find_entry, same_inum, same_names}

-- The offset of the first of `k` entries from `off` on that is not in use, or the end of them.
unfoldable pub first_empty : Sys → Inode → ℕ → ℕ → ℕ
unfolding byte_at
first_empty s ip off zero = off
first_empty s ip off (suc k) =
    let rest = first_empty s ip (off + dirent_size) k in
    if de_inum (entry s ip off) == 0 then off else rest

pub first_empty_le :
    (s : Sys) (ip : Inode) (off k e : ℕ)
    → e < k
    → de_inum (entry s ip (off + e * dirent_size)) ≡ 0
    → first_empty s ip off k ≤ off + e * dirent_size
unfolding first_empty
first_empty_le s ip off zero e lt h = absurd (omega arith)
first_empty_le s ip off (suc k) zero lt h = ground (arith, h)
first_empty_le s ip off (suc k) (suc e) lt h =
    let place : off + suc e * dirent_size ≡ off + dirent_size + e * dirent_size = omega arith in
    let rest =
      first_empty_le s ip (off + dirent_size) k e (omega arith)
        (ap (λ x. de_inum (entry s ip x)) (sym place) ∙ h) in
    ground (arith, rest)

-- The entry that was found is a whole one, and not in use.
pub first_empty_lem :
    (s : Sys) (ip : Inode) (off k : ℕ)
    → off % dirent_size ≡ 0
    → first_empty s ip off k < off + k * dirent_size
    → (off ≤ first_empty s ip off k)
      × (first_empty s ip off k % dirent_size ≡ 0)
      × (de_inum (entry s ip (first_empty s ip off k)) ≡ 0)
unfolding first_empty
first_empty_lem s ip off zero whole lt = absurd (omega arith)
first_empty_lem s ip off (suc k) whole lt = elim (Bool-cases (de_inum (entry s ip off) == 0)) [
  | inl found ↦ rw found (omega arith, whole, (==_iff _ 0).0 found)
  | inr used ↦
      let (le, at, clear) =
        first_empty_lem s ip (off + dirent_size) k (omega arith) (ground arith) in
      rw used (omega (arith, le), at, clear)
]

unused-names : (other d : Bytes) → de_inum d ≡ 0 → names other d ≡ false
unused-names other d unused =
    let clear : (de_inum d == 0) ≡ true = (==_iff (de_inum d) 0).1 unused in rw clear refl

choice-none :
    {A : Type 0} (b : Bool) (x : A) (o : Option A)
    → (if b then some x else o) ≡ none
    → (b ≡ false) × (o ≡ none)
choice-none true x o h = absurd cc
choice-none false x o h = (refl, h)

-- A search that finds nothing has not found it in the first entry.
none_first :
    (s : Sys) (ip : Inode) (name : Bytes) (k off : ℕ)
    → find_entry s ip name off (suc k) ≡ none
    → (names name (entry s ip off) ≡ false) × (find_entry s ip name (off + dirent_size) k ≡ none)
unfolding find_entry
none_first s ip name k off missing =
    choice-none (names name (entry s ip off)) (de_inum (entry s ip off), off)
      (find_entry s ip name (off + dirent_size) k) missing

-- What `dirlink` puts in the entry.
abbrev pub new_entry : Bytes → Bytes → ℕ → Bytes
new_entry de name inum = put16 (strncpy de 2 name 0 dirsiz) 0 inum

new_entry-inum :
    (de name : Bytes) (inum : ℕ) → inum < 65536 → de_inum (new_entry de name inum) ≡ inum
new_entry-inum de name inum lt = get16-put16 (strncpy de 2 name 0 dirsiz) 0 inum lt

new_entry-name :
    (de name : Bytes) (inum : ℕ) (other : Bytes)
    → namecmp_eq other (de_name (new_entry de name inum)) ≡ namecmp_eq other name
unfolding namecmp_eq put16
new_entry-name de name inum other =
    strncmp_eq-same other (de_name (new_entry de name inum)) (shift 2 (strncpy de 2 name 0 dirsiz))
      0 dirsiz (λ j le lt. ground arith)
    ∙ strncmp_eq-strncpy other de 2 name 0 dirsiz

-- The entry at `at`, which was not in use, has been written.
module _ (s t : Sys) (ip : Inode) (at : ℕ) (de name : Bytes) (inum : ℕ)
    (w : Wrote s ip at 0 dirent_size (new_entry de name inum) t) (whole : at % dirent_size ≡ 0)
    (within : at + dirent_size ≤ ip.size) (unused : de_inum (entry s ip at) ≡ 0)
    (positive : inum ≢ 0) (short : inum < 65536) where
  written_bytes : (j : ℕ) → j < dirent_size → entry t ip at j ≡ new_entry de name inum j
  written_bytes j lt =
      let place : at + j - at ≡ j = omega arith in
      ground (arith, w.bytes (at + j) (omega arith), ap (new_entry de name inum) place)

  written-inum : de_inum (entry t ip at) ≡ inum
  written-inum =
      same_inum (entry t ip at) (new_entry de name inum) written_bytes
      ∙ new_entry-inum de name inum short

  written-names : (other : Bytes) → names other (entry t ip at) ≡ namecmp_eq other name
  written-names other =
      same_names (entry t ip at) (new_entry de name inum) written_bytes other
      ∙ ground (arith, new_entry-inum de name inum short, new_entry-name de name inum other)

  module _ (off : ℕ) (aligned : off % dirent_size ≡ 0) (inside : off + dirent_size ≤ ip.size)
      (apart : off ≢ at) where
    other_bytes : (j : ℕ) → j < dirent_size → entry t ip off j ≡ entry s ip off j
    other_bytes j lt = ground (arith, w.bytes (off + j) (omega arith))

    other-inum : de_inum (entry t ip off) ≡ de_inum (entry s ip off)
    other-inum = same_inum (entry t ip off) (entry s ip off) other_bytes

    other-names : (other : Bytes) → names other (entry t ip off) ≡ names other (entry s ip off)
    other-names = same_names (entry t ip off) (entry s ip off) other_bytes

  -- Entries that are not the one at `at` are found as before.
  find_entry-other :
      (other : Bytes) (k off : ℕ)
      → off % dirent_size ≡ 0
      → off + k * dirent_size ≤ ip.size
      → at < off
      → find_entry t ip other off k ≡ find_entry s ip other off k
  unfolding find_entry
  find_entry-other other zero off aligned inside after = refl
  find_entry-other other (suc k) off aligned inside after =
      let rest =
        find_entry-other other k (off + dirent_size) (omega arith) (omega arith) (omega arith) in
      rw
        (
          other-names off aligned (omega arith) (omega (arith, after)) other,
          other-inum off aligned (omega arith) (omega (arith, after)),
          rest,
        )
        refl

  -- A name that is the new one is in no other entry.
  absent :
      (other : Bytes) (off : ℕ)
      → namecmp_eq other name ≡ true
      → names name (entry s ip off) ≡ false
      → names other (entry s ip off) ≡ false
  unfolding namecmp_eq
  absent other off same none_there =
      ground (arith, strncmp_eq-congr other name (de_name (entry s ip off)) 0 dirsiz same)

  -- What a lookup finds, from `off` on.
  abbrev Inserted : Bytes → ℕ → ℕ → Type 0
  Inserted other off k =
      find_entry t ip other off k
      ≡ (if namecmp_eq other name then some (inum, at) else find_entry s ip other off k)

  find_entry-here :
      (other : Bytes) (k : ℕ) → at + suc k * dirent_size ≤ ip.size → Inserted other at (suc k)
  unfolding find_entry
  find_entry-here other k inside =
      let rest =
        find_entry-other other k (at + dirent_size) (omega arith) (omega arith) (omega arith) in
      let gone : names other (entry s ip at) ≡ false = unused-names other (entry s ip at) unused in
      rw (written-names other, written-inum, gone, rest) refl

  find_entry-step :
      (other : Bytes) (k off : ℕ)
      → off % dirent_size ≡ 0
      → off + suc k * dirent_size ≤ ip.size
      → off ≢ at
      → names name (entry s ip off) ≡ false
      → Inserted other (off + dirent_size) k
      → Inserted other off (suc k)
  unfolding find_entry
  find_entry-step other k off aligned inside ne none_there rest =
      elim (Bool-cases (names other (entry s ip off))) [
        | inl hit ↦
            let differs : namecmp_eq other name ≡ false =
              elim (Bool-cases (namecmp_eq other name)) [
                | inl same ↦ absurd (ground (arith, absent other off same none_there))
                | inr d ↦ d
              ] in
            rw
              (
                other-names off aligned (omega arith) ne other,
                other-inum off aligned (omega arith) ne,
                hit,
                differs,
              )
              refl
        | inr miss ↦ rw (other-names off aligned (omega arith) ne other, miss, rest) refl
      ]

  pub find_entry-Inserted :
      (other : Bytes) (k off : ℕ)
      → off % dirent_size ≡ 0
      → off + k * dirent_size ≤ ip.size
      → off ≤ at
      → at < off + k * dirent_size
      → find_entry s ip name off k ≡ none
      → Inserted other off k
  unfolding find_entry
  find_entry-Inserted other zero off aligned inside le lt missing = absurd (omega arith)
  find_entry-Inserted other (suc k) off aligned inside le lt missing =
      elim (Bool-cases (off == at)) [
        | inl here ↦
            let e : off ≡ at = (==_iff off at).0 here in
            subst (λ x. Inserted other x (suc k)) (sym e)
              (find_entry-here other k (omega (arith, e)))
        | inr before ↦
            let (none_there, later) = none_first s ip name k off missing in
            let ne : off ≢ at = λ e. let there = (==_iff off at).1 e in absurd cc in
            find_entry-step other k off aligned inside ne none_there (
              find_entry-Inserted other k (off + dirent_size) (omega arith) (omega arith)
                (omega (arith, ne)) (omega arith) later)
      ]
