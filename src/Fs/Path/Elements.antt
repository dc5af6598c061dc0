-- ===== src/Fs/Path/Elements.antt =====
-- `skipelem` against the list of the elements of a path: what lies between its slashes.
use fscq.Base.{
  ℕ, ◌+◌, ltb, min, if◌then◌else◌, ◌≤◌, ◌<◌, ◌≡◌, refl, true, false, arith, ◌==◌, Bool-cases, inl,
  inr, subst, sym, Option, none, some, List, [], ◌∷◌, ◌++◌, length,
}
use mathlib.Core.List.{append-nil, append_assoc}
use fscq.Memory.{Bytes, cstring, memmove, set_byte}
use fscq.Params.{dirsiz}
use fscq.Fs.Path.{FilePath, skip_slashes, element, after_element, copy_name, take_element, skipelem}

-- An element under way, put in front of the others when it has ended.
abbrev close_element : List ℕ → List (List ℕ) → List (List ℕ)
close_element [] es = es
close_element (c ∷ cs) es = (c ∷ cs) ∷ es

-- The elements of `acc ++ path`, where `acc` has no slash.
unfoldable pub elements_from : List ℕ → FilePath → List (List ℕ)
elements_from acc [] = close_element acc []
elements_from acc (c ∷ cs) = elim (c == b'/') [
  | true ↦ close_element acc (elements_from [] cs)
  | false ↦ elements_from (acc ++ c ∷ []) cs
]

unfoldable pub elements : FilePath → List (List ℕ)
elements = elements_from []

elements-skip_slashes : (p : FilePath) → elements_from [] (skip_slashes p) ≡ elements_from [] p
unfolding elements_from skip_slashes
elements-skip_slashes [] = refl
elements-skip_slashes (c ∷ cs) = ground (arith, elements-skip_slashes cs)

-- The path up to the next slash is the element under way.
elements_from-element :
    (acc : List ℕ) (p : FilePath)
    → elements_from acc p ≡ close_element (acc ++ element p) (elements_from [] (after_element p))
unfolding elements_from element after_element
elements_from-element acc [] = rw append-nil
elements_from-element acc (c ∷ cs) = elim (Bool-cases (c == b'/')) [
  | inl slash ↦ ground (arith, append-nil acc)
  | inr other ↦
      ground
        (arith, elements_from-element (acc ++ c ∷ []) cs, append_assoc acc (c ∷ []) (element cs))
]

-- A path that does not begin with a slash.
abbrev pub NoSlash : FilePath → Type 0
NoSlash [] = Unit
NoSlash (c ∷ cs) = (c == b'/') ≡ false

skip_slashes-NoSlash : (p : FilePath) → NoSlash (skip_slashes p)
unfolding skip_slashes
skip_slashes-NoSlash [] = tt
skip_slashes-NoSlash (c ∷ cs) = elim (Bool-cases (c == b'/')) [
  | inl slash ↦ ground (arith, skip_slashes-NoSlash cs)
  | inr other ↦ ground arith
]

length-skip_slashes : (p : FilePath) → length (skip_slashes p) ≤ length p
unfolding skip_slashes
length-skip_slashes [] = omega arith
length-skip_slashes (c ∷ cs) = ground (arith, length-skip_slashes cs)

length-after_element : (p : FilePath) → length (after_element p) ≤ length p
unfolding after_element
length-after_element [] = omega arith
length-after_element (c ∷ cs) = ground (arith, length-after_element cs)

-- The field of DIRSIZ bytes has the characters of the element and a NUL, as far as they fit, and
-- all else is as before.
abbrev Copied : List ℕ → Bytes → Bytes → Type 0
Copied e name name' =
    (j : ℕ) → name' j ≡ (if ltb j (min (length e + 1) dirsiz) then cstring e j else name j)

cstring-end : (e : List ℕ) → cstring e (length e) ≡ 0
cstring-end [] = refl
cstring-end (c ∷ cs) = ground (arith, cstring-end cs)

copy_name-Copied : (e : List ℕ) (name : Bytes) → Copied e name (copy_name e name)
unfolding copy_name memmove set_byte
copy_name-Copied e name j = ground (arith, cstring-end e)

-- What `skipelem` does with a path that has the elements `es`: nothing if there are none; else it
-- fills in the first, and returns a shorter path with the others that begins with no slash.
abbrev pub Peels : FilePath → Bytes → List (List ℕ) → Option (FilePath × Bytes) → Type 0
Peels path name [] r = r ≡ none
Peels path name (e ∷ es) r =
    (rest : FilePath) × (name' : Bytes) × (r ≡ some (rest, name'))
    × Copied e name name'
    × (elements rest ≡ es)
    × NoSlash rest
    × (length rest < length path)

-- A path that begins with an element, and `take_element` of it.
elements_from-cons :
    (c : ℕ) (cs : FilePath)
    → (c == b'/') ≡ false
    → elements_from [] (c ∷ cs) ≡ (c ∷ element cs) ∷ elements_from [] (after_element cs)
unfolding elements_from
elements_from-cons c cs other = ground (arith, elements_from-element (c ∷ []) cs)

take_element-cons :
    (c : ℕ) (cs : FilePath) (name : Bytes)
    → (c == b'/') ≡ false
    → take_element (c ∷ cs) name
      ≡ some (skip_slashes (after_element cs), copy_name (c ∷ element cs) name)
unfolding take_element element after_element
take_element-cons c cs name other = ground arith

take_element-Peels :
    (path q : FilePath) (name : Bytes)
    → NoSlash q
    → length q ≤ length path
    → Peels path name (elements_from [] q) (take_element q name)
unfolding elements take_element elements_from
take_element-Peels path [] name first short = refl
take_element-Peels path (c ∷ cs) name first short =
    subst (λ es. Peels path name es (take_element (c ∷ cs) name))
      (sym (elements_from-cons c cs first))
      (
        skip_slashes (after_element cs),
        copy_name (c ∷ element cs) name,
        take_element-cons c cs name first,
        copy_name-Copied (c ∷ element cs) name,
        elements-skip_slashes (after_element cs),
        skip_slashes-NoSlash (after_element cs),
        omega (arith, length-skip_slashes (after_element cs), length-after_element cs),
      )

-- `skipelem` returns null if the path has no element; else the field of 62 bytes `name` has the
-- characters of the first element and a NUL after them, as far as they fit, and is else as
-- before; and the rest of the path has the elements after it, begins with no slash and is
-- shorter.
pub skipelem-Peels :
    (path : FilePath) (name : Bytes) → Peels path name (elements path) (skipelem path name)
unfolding elements skipelem
skipelem-Peels path name =
    subst (λ es. Peels path name es (take_element (skip_slashes path) name))
      (elements-skip_slashes path)
      (take_element-Peels path (skip_slashes path) name (skip_slashes-NoSlash path)
        (length-skip_slashes path))
