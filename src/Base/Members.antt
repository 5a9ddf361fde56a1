-- ===== src/Base/Members.antt =====
-- Membership and distinctness of lists of numbers, as Boolean tests.
use Prim.Native.Nat.{ℕ, suc}
use mathlib.Core.Path.{◌≡◌, refl, sym, ◌∙◌, ap}
use mathlib.Core.Bool.{Bool, true, false, ◌||◌}
use mathlib.Core.List.{List, [], ◌∷◌, ◌++◌}
use native.Mathlib.Omega.{arith}
use brianscheme.Base.Tests.{◌==◌, if◌then◌else◌, ==→eq}
use brianscheme.Base.Lists.{length, length-append}

abbrev pub mem : ℕ → List ℕ → Bool
mem a [] = false
mem a (x ∷ xs) = if a == x then true else mem a xs

abbrev pub Nodup : List ℕ → Type 0
Nodup [] = Unit
Nodup (x ∷ xs) = (mem x xs ≡ false) × Nodup xs

pub mem-append : (a : ℕ) (xs ys : List ℕ) → mem a (xs ++ ys) ≡ (mem a xs || mem a ys)
mem-append a [] ys = refl
mem-append a (x ∷ xs) ys = ground (arith, mem-append a xs ys)

-- Insertion in the middle.
pub mem_middle :
    (a x : ℕ) (xs ys : List ℕ) → mem a (xs ++ x ∷ ys) ≡ (if a == x then true else mem a (xs ++ ys))
mem_middle a x [] ys = refl
mem_middle a x (u ∷ xs) ys = ground (arith, mem_middle a x xs ys)

pub Nodup-middle :
    (x : ℕ) (xs ys : List ℕ) → Nodup (xs ++ x ∷ ys) → (mem x (xs ++ ys) ≡ false) × Nodup (xs ++ ys)
Nodup-middle x [] ys h = h
Nodup-middle x (u ∷ xs) ys h =
    ground (arith, mem_middle u x xs ys, Nodup-middle x xs ys h.1, ==→eq x u)

pub length_middle : (x : ℕ) (xs ys : List ℕ) → length (xs ++ x ∷ ys) ≡ suc (length (xs ++ ys))
length_middle x xs ys = omega (arith, length-append xs (x ∷ ys), length-append xs ys)

pub mem_self : (x : ℕ) (xs : List ℕ) → mem x (x ∷ xs) ≡ true
mem_self x xs = ground arith

-- A member splits the list.
pub mem_split :
    (a : ℕ) (xs : List ℕ) → mem a xs ≡ true → (us : List ℕ) × (vs : List ℕ) × (xs ≡ us ++ a ∷ vs)
mem_split a [] h = cc
mem_split a (x ∷ xs) h = go (a == x) refl (mem_split a xs)
  where
    go :
        (b : Bool)
        → (a == x) ≡ b
        → (mem a xs ≡ true → (us : List ℕ) × (vs : List ℕ) × (xs ≡ us ++ a ∷ vs))
        → (us : List ℕ) × (vs : List ℕ) × (x ∷ xs ≡ us ++ a ∷ vs)
    go true e rest = ([], xs, ap (λ (y : ℕ). y ∷ xs) (sym (==→eq a x e)))
    go false e rest =
        let (us, vs, q) = rest (ground arith) in (x ∷ us, vs, ap (λ (ys : List ℕ). x ∷ ys) q)

-- Two lists with no member in common.
abbrev pub Apart : List ℕ → List ℕ → Type 0
Apart xs ys = (b : ℕ) → mem b xs ≡ true → mem b ys ≡ false

pub Apart-symm : (xs ys : List ℕ) → Apart xs ys → Apart ys xs
Apart-symm xs ys h b m = go (mem b xs) refl
  where
    go : (t : Bool) → mem b xs ≡ t → t ≡ false
    go true e = sym m ∙ h b e
    go false e = refl

pub Apart-middle : (x : ℕ) (xs ys zs : List ℕ) → Apart (xs ++ x ∷ ys) zs → Apart (xs ++ ys) zs
Apart-middle x xs ys zs h b m = h b (ground (arith, mem_middle b x xs ys))

pub middle-Apart : (x : ℕ) (xs ys zs : List ℕ) → Apart (xs ++ x ∷ ys) zs → mem x zs ≡ false
middle-Apart x xs ys zs h = h x (ground (arith, mem_middle x x xs ys))

pub Apart-cons : (x : ℕ) (xs ys : List ℕ) → mem x xs ≡ false → Apart xs ys → Apart xs (x ∷ ys)
Apart-cons x xs ys out h b m = ground (arith, h b m, ==→eq b x)
