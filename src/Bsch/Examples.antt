-- ===== src/Bsch/Examples.antt =====
-- split_path of a path of three parts, and an image behind two pages of 5 bytes.
use brianscheme.Base.{ℕ, ◌≡◌, refl, inl, some, List, [], ◌∷◌, arith, codes}
use brianscheme.Bsch.{split_path, find_image}
use brianscheme.Bsch.SearchPath.{joined, AllPlain, split_path-joined}
use brianscheme.Bsch.ImageSearch.{Page, pages_then, find_image_lem}

split_path-joined_example :
    (part : List ℕ) × (parts : List (List ℕ)) × (split_path (codes "a::bc") ≡ some (part ∷ parts))
    × (joined part parts ≡ codes "a::bc")
    × AllPlain (part ∷ parts)
split_path-joined_example = split_path-joined (codes "a::bc")

abbrev pages : List Page
pages =
    record { front = 1 ∷ []; a = 0; b = 0; c = 0; d = 0 }
    ∷ record { front = 2 ∷ []; a = 0xef; b = 0xbe; c = 0xad; d = 0xde }
    ∷ []

find_image_lem_example : find_image 3 5 (pages_then pages (7 ∷ 8 ∷ [])) ≡ some 10
find_image_lem_example =
    find_image_lem 5 3 10 pages (7 ∷ 8 ∷ []) (inl ((refl, refl, (refl, refl)), refl)) (omega arith)
