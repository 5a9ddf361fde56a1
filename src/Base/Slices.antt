-- ===== src/Base/Slices.antt =====
-- Parts of lists: the first elements, the others, and writes inside them.
use mathlib.Core.List.{tail}
use brianscheme.Base.{
  ℕ, zero, suc, ◌+◌, ◌-◌, ◌∙◌, ◌≤◌, ◌<◌, ◌≡◌, refl, ap, some, List, [], ◌∷◌, ◌++◌, arith, length,
  get_elem?, take, drop, set,
}

module _ {ℓ} {A : Type ℓ} where
  pub take-set :
      (xs : List A) (i : ℕ) (v : A)
      → i < length xs
      → take (suc i) (set xs i v) ≡ take i xs ++ v ∷ []
  take-set [] i v h = elim h [ ]
  take-set (x ∷ xs) zero v h = refl
  take-set (x ∷ xs) (suc i) v h = ap (λ (ys : List A). x ∷ ys) (take-set xs i v (omega arith))

  pub take-set_below : (xs : List A) (i : ℕ) (v : A) → take i (set xs i v) ≡ take i xs
  take-set_below [] zero v = refl
  take-set_below [] (suc i) v = refl
  take-set_below (x ∷ xs) zero v = refl
  take-set_below (x ∷ xs) (suc i) v = ap (λ (ys : List A). x ∷ ys) (take-set_below xs i v)

  pub take-append : (xs ys : List A) (i : ℕ) → i ≤ length xs → take i (xs ++ ys) ≡ take i xs
  take-append xs ys zero h = refl
  take-append [] ys (suc i) h = elim h [ ]
  take-append (x ∷ xs) ys (suc i) h =
      ap (λ (zs : List A). x ∷ zs) (take-append xs ys i (omega arith))

  pub no_snoc : (xs : List A) (x : A) → ¬ (◌≡◌ {A = List A} [] (xs ++ x ∷ []))
  no_snoc [] x e = cc
  no_snoc (y ∷ xs) x e = cc

  pub take_last :
      (s xs : List A) (x : A) (t : ℕ)
      → t < length s
      → take (suc t) s ≡ xs ++ x ∷ []
      → (get_elem? s t ≡ some x) × (take t s ≡ xs)
  take_last [] xs x t h e = elim h [ ]
  take_last (a ∷ s) [] x zero h e = (cc, refl)
  take_last (a ∷ s) (b ∷ xs) x zero h e = absurd (no_snoc xs x (ap tail e))
  take_last (a ∷ []) [] x (suc t) h e = absurd (omega arith)
  take_last (a ∷ c ∷ s) [] x (suc t) h e = cc
  take_last (a ∷ s) (b ∷ xs) x (suc t) h e =
      let (found, rest) = take_last s xs x t (omega arith) (ap tail e) in (found, cc)

  pub drop-set : (xs : List A) (i k : ℕ) (v : A) → i < k → drop k (set xs i v) ≡ drop k xs
  drop-set [] i (suc k) v h = refl
  drop-set xs i zero v h = elim h [ ]
  drop-set (x ∷ xs) zero (suc k) v h = refl
  drop-set (x ∷ xs) (suc i) (suc k) v h = drop-set xs i k v (omega arith)

  pub take-drop : (n k : ℕ) (xs : List A) → take n (drop k xs) ≡ drop k (take (k + n) xs)
  take-drop n zero xs = let e : 0 + n ≡ n = omega arith in rw e
  take-drop zero (suc k) [] = let e : suc k + 0 ≡ suc (k + 0) = omega arith in rw e refl
  take-drop (suc n) (suc k) [] = let e : suc k + suc n ≡ suc (k + suc n) = omega arith in rw e refl
  take-drop n (suc k) (x ∷ xs) =
      let e : suc k + n ≡ suc (k + n) = omega arith in rw e (take-drop n k xs)

  pub take_less : (i j : ℕ) (xs : List A) → i ≤ j → take i (take j xs) ≡ take i xs
  take_less zero j xs h = refl
  take_less (suc i) zero xs h = elim h [ ]
  take_less (suc i) (suc j) [] h = refl
  take_less (suc i) (suc j) (x ∷ xs) h =
      ap (λ (ys : List A). x ∷ ys) (take_less i j xs (omega arith))

  pub take_front : (xs ys : List A) → take (length xs) (xs ++ ys) ≡ xs
  take_front [] ys = refl
  take_front (x ∷ xs) ys = ap (λ (zs : List A). x ∷ zs) (take_front xs ys)

  pub drop_front : (xs ys : List A) → drop (length xs) (xs ++ ys) ≡ ys
  drop_front [] ys = refl
  drop_front (x ∷ xs) ys = drop_front xs ys

  pub element_at :
      (xs : List A) (k n : ℕ)
      → k < length xs
      → (v : A) × (get_elem? xs k ≡ some v)
        × (take (suc n) (drop k xs) ≡ v ∷ take n (drop (suc k) xs))
  element_at [] k n h = elim h [ ]
  element_at (x ∷ xs) zero n h = (x, refl, refl)
  element_at (x ∷ xs) (suc k) n h = element_at xs k n (omega arith)

  pub length-take : (n : ℕ) (xs : List A) → n ≤ length xs → length (take n xs) ≡ n
  length-take zero xs h = refl
  length-take (suc n) [] h = elim h [ ]
  length-take (suc n) (x ∷ xs) h = ap suc (length-take n xs (omega arith))

  pub length-take_le : (n : ℕ) (xs : List A) → length (take n xs) ≤ length xs
  length-take_le zero xs = omega arith
  length-take_le (suc n) [] = omega arith
  length-take_le (suc n) (x ∷ xs) = let h = length-take_le n xs in omega arith

  pub length-drop : (n : ℕ) (xs : List A) → length (drop n xs) ≡ length xs - n
  length-drop zero xs = omega arith
  length-drop (suc n) [] = omega arith
  length-drop (suc n) (x ∷ xs) = length-drop n xs ∙ omega arith
