-- ===== src/Bsch/ImageSearch.antt =====
-- bsch.c: where find_image finds the image.
use brianscheme.Base.{
  ℕ, zero, suc, ◌+◌, ◌-◌, ◌*◌, ◌<◌, ◌≡◌, refl, sym, ap, ◌⊎◌, inl, inr, ◌∙◌, true, false, some, List,
  [], ◌∷◌, ◌++◌, arith, append_assoc, length, length-append, take, drop, lt→ltb,
}
use native.Mathlib.Nat.{mul-suc}
use brianscheme.Base.Slices.{drop_front, length-take_le, length-drop}
use brianscheme.Bsch.{is_mark, image_loop, find_image}

-- A page: what stands before its last four bytes, and these.
pub record Page : Type 0 where
  pub front : List ℕ
  pub a : ℕ
  pub b : ℕ
  pub c : ℕ
  pub d : ℕ

abbrev pub last_bytes : Page → List ℕ
last_bytes p = p.a ∷ p.b ∷ p.c ∷ p.d ∷ []

-- The bytes of the pages, with others behind them.
abbrev pub pages_then : List Page → List ℕ → List ℕ
pages_then [] behind = behind
pages_then (p ∷ ps) behind = p.front ++ (last_bytes p ++ pages_then ps behind)

-- Pages of a size, of which the last one alone ends in the mark.
abbrev pub IsMarked : ℕ → List Page → Type 0
IsMarked size [] = ⊥
IsMarked size (p ∷ []) = (length p.front + 4 ≡ size) × (is_mark (last_bytes p) ≡ true)
IsMarked size (p ∷ q ∷ ps) =
    (length p.front + 4 ≡ size) × (is_mark (last_bytes p) ≡ false) × IsMarked size (q ∷ ps)

-- Every page has the size, and none ends in the mark.
abbrev pub AreUnmarked : ℕ → List Page → Type 0
AreUnmarked size [] = Unit
AreUnmarked size (p ∷ ps) =
    (length p.front + 4 ≡ size) × (is_mark (last_bytes p) ≡ false) × AreUnmarked size ps

drop_page :
    (p : Page) (rest : List ℕ) (size : ℕ)
    → length p.front + 4 ≡ size
    → drop size (p.front ++ (last_bytes p ++ rest)) ≡ rest
drop_page p rest size h =
    let whole : size ≡ length (p.front ++ last_bytes p) =
      omega (arith, length-append p.front (last_bytes p)) in
    rw (whole, ← append_assoc p.front (last_bytes p) rest)
      (drop_front (p.front ++ last_bytes p) rest)

sample_page :
    (p : Page) (rest : List ℕ) (size : ℕ)
    → length p.front + 4 ≡ size
    → take 4 (drop (size - 4) (p.front ++ (last_bytes p ++ rest))) ≡ last_bytes p
sample_page p rest size h =
    let before : size - 4 ≡ length p.front = omega arith in
    rw (before, drop_front p.front (last_bytes p ++ rest)) refl

mul_step : (size n loc : ℕ) → loc + size + size * suc n ≡ loc + size * suc (suc n)
mul_step size n loc = rw (mul-suc size (suc n)) (omega arith)

-- A tail shorter than a page.
tail_sample : (size : ℕ) (xs : List ℕ) → length xs < size → length (take 4 (drop (size - 4) xs)) < 4
tail_sample size xs h =
    omega (arith, length-take_le 4 (drop (size - 4) xs), length-drop (size - 4) xs)

image_loop-none :
    (size fuel : ℕ) (ps : List Page) (xs : List ℕ) (loc : ℕ)
    → AreUnmarked size ps
    → length xs < size
    → length ps < fuel
    → image_loop size fuel (pages_then ps xs) loc ≡ some 0
unfolding image_loop
image_loop-none size zero ps xs loc w short h = absurd (omega arith)
image_loop-none size (suc fuel) [] xs loc w short h =
    rw (lt→ltb (length (take 4 (drop (size - 4) xs))) 4 (tail_sample size xs short))
image_loop-none size (suc fuel) (p ∷ ps) xs loc (size_p, mark, w) short h =
    rw
      (
        sample_page p (pages_then ps xs) size size_p,
        mark,
        drop_page p (pages_then ps xs) size size_p,
        image_loop-none size fuel ps xs (loc + size) w short (omega arith),
      )
      refl

image_loop_lem :
    (size fuel : ℕ) (ps : List Page) (image : List ℕ) (loc : ℕ)
    → IsMarked size ps
    → length ps < fuel
    → image_loop size fuel (pages_then ps image) loc ≡ some (loc + size * length ps)
unfolding image_loop
image_loop_lem size zero ps image loc w h = absurd (omega arith)
image_loop_lem size (suc fuel) [] image loc w h = absurd w
image_loop_lem size (suc fuel) (p ∷ []) image loc (size_p, mark) h =
    rw (sample_page p image size size_p, mark) (ap some (omega arith))
image_loop_lem size (suc fuel) (p ∷ q ∷ ps) image loc (size_p, mark, w) h =
    rw
      (
        sample_page p (pages_then (q ∷ ps) image) size size_p,
        mark,
        drop_page p (pages_then (q ∷ ps) image) size size_p,
        image_loop_lem size fuel (q ∷ ps) image (loc + size) w (omega arith),
      )
      (ap some (mul_step size (length ps) loc))

-- What find_image must give for pages and what stands behind them: their end, when the last page
-- alone ends in the mark, and 0 when none does and less than a page stands behind.
abbrev pub IsOffset : ℕ → List Page → List ℕ → ℕ → Type 0
IsOffset size ps behind offset =
    (IsMarked size ps × (offset ≡ size * length ps))
    ⊎ (AreUnmarked size ps × (length behind < size) × (offset ≡ 0))

-- find_image, with more fuel than pages, ends: behind pages of which the last one alone ends in the
-- mark it finds the image, whatever the image holds, and in a file of pages that do not end in the
-- mark, with less than a page behind them, it gives 0.
pub find_image_lem :
    (size fuel offset : ℕ) (ps : List Page) (behind : List ℕ)
    → IsOffset size ps behind offset
    → length ps < fuel
    → find_image fuel size (pages_then ps behind) ≡ some offset
unfolding find_image
find_image_lem size fuel offset ps behind (inl (w, e)) h =
    image_loop_lem size fuel ps behind 0 w h ∙ ap some (omega (arith, e))
find_image_lem size fuel offset ps behind (inr (w, short, e)) h =
    image_loop-none size fuel ps behind 0 w short h ∙ ap some (sym e)
