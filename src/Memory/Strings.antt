-- ===== src/Memory/Strings.antt =====
-- C strings in fields of a fixed size: `strncmp` as an equivalence, and `strncpy` before it.
use fscq.Base.{
  ℕ, zero, suc, ◌+◌, ◌≤◌, ◌<◌, ◌≡◌, refl, true, false, arith, ◌==◌, ◌∙◌, sym, subst, Bool-cases,
  inl, inr,
}
use fscq.Memory.{Bytes, shift, memset, set_byte, strncmp_eq, strncpy}

-- Strings that are equal compare alike with a third one.
pub strncmp_eq-congr :
    (a b c : Bytes) (i n : ℕ) → strncmp_eq a b i n ≡ true → strncmp_eq a c i n ≡ strncmp_eq b c i n
unfolding strncmp_eq
strncmp_eq-congr a b c i zero e = refl
strncmp_eq-congr a b c i (suc n) e = ground (arith, strncmp_eq-congr a b c (i + 1) n)

-- The comparison reads its `n` bytes only.
pub strncmp_eq-same :
    (a p q : Bytes) (i n : ℕ)
    → ((j : ℕ) → i ≤ j → j < i + n → p j ≡ q j)
    → strncmp_eq a p i n ≡ strncmp_eq a q i n
unfolding strncmp_eq
strncmp_eq-same a p q i zero h = refl
strncmp_eq-same a p q i (suc n) h =
    let rest = strncmp_eq-same a p q (i + 1) n (λ j le lt. h j (omega arith) (omega arith)) in
    ground (arith, h i (omega arith) (omega arith), rest)

-- `strncpy` leaves what lies before its field.
strncpy-below :
    (dst : Bytes) (at : ℕ) (src : Bytes) (i n j : ℕ) → j < at + i → strncpy dst at src i n j ≡ dst j
unfolding strncpy memset set_byte
strncpy-below dst at src i zero j lt = refl
strncpy-below dst at src i (suc n) j lt =
    let rest = strncpy-below (set_byte dst (at + i) (src i)) at src (i + 1) n j (omega arith) in
    ground (arith, rest)

-- Strings with the same first byte, and the same comparison from the next on.
strncmp_eq-step :
    (a p q : Bytes) (i n : ℕ)
    → p i ≡ q i
    → strncmp_eq a p (i + 1) n ≡ strncmp_eq a q (i + 1) n
    → strncmp_eq a p i (suc n) ≡ strncmp_eq a q i (suc n)
unfolding strncmp_eq
strncmp_eq-step a p q i n e rest = ground arith

strncpy-more :
    (dst : Bytes) (at : ℕ) (src : Bytes) (i n : ℕ)
    → (src i == 0) ≡ false
    → strncpy dst at src i (suc n) ≡ strncpy (set_byte dst (at + i) (src i)) at src (i + 1) n
unfolding strncpy
strncpy-more dst at src i n more = rw more refl

own : (dst : Bytes) (at v : ℕ) → set_byte dst at v at ≡ v
unfolding set_byte
own dst at v = ground arith

-- What `strncpy` has copied compares as its source does.
pub strncmp_eq-strncpy :
    (a dst : Bytes) (at : ℕ) (src : Bytes) (i n : ℕ)
    → strncmp_eq a (shift at (strncpy dst at src i n)) i n ≡ strncmp_eq a src i n
unfolding strncmp_eq strncpy memset
strncmp_eq-strncpy a dst at src i zero = refl
strncmp_eq-strncpy a dst at src i (suc n) = elim (Bool-cases (src i == 0)) [
  | inl end ↦ rw end (ground arith)
  | inr more ↦
      let d : Bytes = strncpy (set_byte dst (at + i) (src i)) at src (i + 1) n in
      let here : d (at + i) ≡ src i =
        strncpy-below (set_byte dst (at + i) (src i)) at src (i + 1) n (at + i) (omega arith)
        ∙ own dst (at + i) (src i) in
      subst (λ p. strncmp_eq a (shift at p) i (suc n) ≡ strncmp_eq a src i (suc n))
        (sym (strncpy-more dst at src i n more))
        (strncmp_eq-step a (shift at d) src i n here
          (strncmp_eq-strncpy a (set_byte dst (at + i) (src i)) at src (i + 1) n))
]
