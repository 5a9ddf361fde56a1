-- ===== src/Bsch/SearchPath.antt =====
-- bsch.c: what split_path makes of a path.
use brianscheme.Base.{
  ℕ, zero, suc, ◌+◌, ◌≡◌, refl, sym, ap, ◌∙◌, ◌⊎◌, inl, inr, false, none, some, List, [], ◌∷◌, ◌++◌,
  ◌==◌, ◌>>=◌, ==→eq, Bool-cases, arith, length,
}
use brianscheme.Bsch.{del, count_parts, strchr, split_loop, split_path}

-- No byte is the delimiter.
abbrev pub IsPlain : List ℕ → Type 0
IsPlain [] = Unit
IsPlain (c ∷ cs) = ((c == del) ≡ false) × IsPlain cs

abbrev pub AllPlain : List (List ℕ) → Type 0
AllPlain [] = Unit
AllPlain (part ∷ parts) = IsPlain part × AllPlain parts

-- A part, and others with a delimiter in front of each.
abbrev pub joined : List ℕ → List (List ℕ) → List ℕ
joined part [] = part
joined part (next ∷ parts) = part ++ del ∷ joined next parts

count_parts-from : (count : ℕ) (path : List ℕ) → count_parts count path ≡ count + count_parts 0 path
unfolding count_parts
count_parts-from count [] = omega arith
count_parts-from count (c ∷ path) = elim (Bool-cases (c == del)) [
  | inl e ↦ rw e (omega (arith, count_parts-from (count + 1) path, count_parts-from 1 path))
  | inr e ↦ rw e (count_parts-from count path)
]

strchr_lem :
    (path : List ℕ)
    → ((strchr path ≡ none) × (count_parts 0 path ≡ 0) × IsPlain path)
      ⊎ ((part : List ℕ) × (behind : List ℕ) × (strchr path ≡ some (part, behind))
          × (path ≡ part ++ del ∷ behind)
          × (count_parts 0 path ≡ suc (count_parts 0 behind))
          × IsPlain part)
unfolding strchr count_parts
strchr_lem [] = inl (refl, refl, tt)
strchr_lem (c ∷ path) = elim (Bool-cases (c == del)) [
  | inl e ↦ inr (
    [],
    path,
    rw e,
    ap (λ x. x ∷ path) (==→eq c del e),
    rw e (count_parts-from 1 path ∙ omega arith),
    tt,
  )
  | inr e ↦ elim (strchr_lem path) [
    | inl (h, n, free) ↦ inl (rw (e, h), rw e n, (e, free))
    | inr (part, behind, h, q, n, free) ↦
        inr (c ∷ part, behind, rw (e, h), ap (λ x. c ∷ x) q, rw e n, (e, free))
  ]
]

split_at :
    (rounds : ℕ) (path part behind : List ℕ)
    → strchr path ≡ some (part, behind)
    → split_loop (suc rounds) path ≡ (do r ← split_loop rounds behind; some (part ∷ r))
unfolding split_loop
split_at rounds path part behind h = rw (split_loop, h) refl

split_loop_lem :
    (n : ℕ) (path : List ℕ)
    → count_parts 0 path ≡ n
    → (part : List ℕ) × (parts : List (List ℕ)) × (split_loop (suc n) path ≡ some (part ∷ parts))
      × (joined part parts ≡ path)
      × (length parts ≡ n)
      × AllPlain (part ∷ parts)
unfolding split_loop
split_loop_lem zero path count = elim (strchr_lem path) [
  | inl (h, m, free) ↦ (path, [], rw (split_loop, h) refl, refl, refl, (free, tt))
  | inr (part, behind, h, q, m, free) ↦ absurd (omega (arith, m, count))
]
split_loop_lem (suc n) path count = elim (strchr_lem path) [
  | inl (h, m, free) ↦ absurd (omega (arith, m, count))
  | inr (part, behind, h, q, m, free) ↦
      let (next, parts, run, whole, size, plain) =
        split_loop_lem n behind (omega (arith, m, count)) in
      (
        part,
        next ∷ parts,
        split_at (suc n) path part behind h ∙ rw run,
        ap (λ x. part ++ del ∷ x) whole ∙ sym q,
        omega (arith, size),
        (free, plain),
      )
]

-- split_path gives, for every path, its parts: no part has a delimiter, and the parts joined by
-- delimiters are the path.
pub split_path-joined :
    (path : List ℕ)
    → (part : List ℕ) × (parts : List (List ℕ)) × (split_path path ≡ some (part ∷ parts))
      × (joined part parts ≡ path)
      × AllPlain (part ∷ parts)
unfolding split_path
split_path-joined path =
    let (part, parts, run, whole, size, plain) = split_loop_lem (count_parts 0 path) path refl in
    let count : count_parts 1 path ≡ suc (count_parts 0 path) =
      count_parts-from 1 path ∙ omega arith in
    (part, parts, rw (count, run), whole, plain)
