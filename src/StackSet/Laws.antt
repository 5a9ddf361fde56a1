-- ===== src/StackSet/Laws.antt =====
-- The stack_set of gc.c as a list, top first: push conses, pop takes out the entry nearest the top.
use mathlib.Core.Path.{subst}
use native.Mathlib.Numerals.{add-one}
use brianscheme.Base.{
  ℕ, zero, suc, ◌-◌, ◌≤◌, ◌<◌, ◌≡◌, refl, ◌∙◌, ap, inl, inr, true, false, List, [], ◌∷◌, arith,
  ◌==◌, if◌then◌else◌, ne→==, ==-self, ==-comm, Bool-cases,
}
use brianscheme.Base.Members.{mem, mem_self}
use brianscheme.StackSet.{StackSet, write, stack_set_push, stack_set_pop, scan_back}

-- The entries below `n`, the topmost first.
abbrev pub below : ℕ → (ℕ → ℕ) → List ℕ
below zero objs = []
below (suc n) objs = objs n ∷ below n objs

abbrev pub contents : StackSet → List ℕ
contents ss = below ss.top ss.objs

pub record IsStack (ss : StackSet) : Type 0 where
  pub room : 0 < ss.size
  pub fits : ss.top ≤ ss.size

-- The list less the entry with the value that is nearest its head; if there is none, less its last.
abbrev pub take_out : ℕ → List ℕ → List ℕ
take_out v [] = []
take_out v (x ∷ []) = []
take_out v (x ∷ y ∷ xs) = if x == v then y ∷ xs else x ∷ take_out v (y ∷ xs)

below_frame : (n : ℕ) (f g : ℕ → ℕ) → ((i : ℕ) → i < n → f i ≡ g i) → below n f ≡ below n g
below_frame zero f g h = refl
below_frame (suc n) f g h = rw (h n (omega arith), below_frame n f g (λ i lt. h i (omega arith)))

-- A push puts the value on top, and afterwards its index is inside the array.
pub push-contents :
    (ss : StackSet) (v : ℕ)
    → IsStack ss
    → (contents (stack_set_push ss v) ≡ v ∷ contents ss) × IsStack (stack_set_push ss v)
unfolding stack_set_push
push-contents ss v w =
    rw (add-one ss.top, ==-self ss.top)
      (
        ap (λ (xs : List ℕ). v ∷ xs)
            (below_frame ss.top _ ss.objs (λ i lt. rw (ne→== i ss.top (omega arith)))),
        ground arith,
      )

below-write : (n : ℕ) (objs : ℕ → ℕ) (v : ℕ) → below n (write objs n v) ≡ below n objs
below-write n objs v = below_frame n _ objs (λ i lt. rw (ne→== i n (omega arith)))

-- The loop writes nothing at its start or above.
scan_back_above :
    (n v last : ℕ) (objs : ℕ → ℕ) (i : ℕ) → n ≤ i → (scan_back n v last objs).0 i ≡ objs i
unfolding scan_back
scan_back_above zero v last objs i h = refl
scan_back_above (suc n) v last objs i h =
    ground (arith, scan_back_above n v (objs n) (write objs n last) i)

take_out_hit : (v x : ℕ) (xs : List ℕ) → (x == v) ≡ true → take_out v (x ∷ xs) ≡ xs
take_out_hit v x [] h = refl
take_out_hit v x (y ∷ xs) h = rw h

scan_back-take_out :
    (n v last : ℕ) (objs : ℕ → ℕ)
    → (last == v) ≡ false
    → (below n (scan_back n v last objs).0 ≡ take_out v (last ∷ below n objs))
      × ((scan_back n v last objs).1 ≡ mem v (below n objs))
unfolding scan_back
scan_back-take_out zero v last objs h = (refl, refl)
scan_back-take_out (suc n) v last objs h = elim (Bool-cases (objs n == v)) [
  | inl e ↦
      rw (e, h, ==-self n, below-write n objs last, take_out_hit v (objs n) (below n objs) e)
        (refl, rw (==-comm v (objs n), e))
  | inr e ↦
      let (shifted, found) = scan_back-take_out n v (objs n) (write objs n last) e in
      rw (e, h, scan_back_above n v (objs n) (write objs n last) n (omega arith), ==-self n)
        (
          ap (λ (xs : List ℕ). last ∷ xs) (shifted ∙ rw (below-write n objs last)),
          rw (==-comm v (objs n), e) (found ∙ rw (below-write n objs last)),
        )
]

-- What pop-take_out states, of the three members of a stack.
abbrev Popped : ℕ → (ℕ → ℕ) → ℕ → ℕ → Type 0
Popped v objs size top =
    let ss : StackSet = record { objs = objs; top = top; size = size } in
    (contents (stack_set_pop ss v).0 ≡ take_out v (contents ss))
    × ((stack_set_pop ss v).1 ≡ mem v (contents ss))

pop_at : (v : ℕ) (objs : ℕ → ℕ) (size n : ℕ) → Popped v objs size (suc n)
unfolding stack_set_pop
pop_at v objs size n =
    let e : suc n - 1 ≡ n = omega arith in
    rw e (elim (Bool-cases (objs n == v)) [
      | inl hit ↦
          rw (hit, take_out_hit v (objs n) (below n objs) hit, ==-comm v (objs n), hit) (refl, refl)
      | inr miss ↦
          let (shifted, found) = scan_back-take_out n v (objs n) objs miss in
          rw (miss, ==-comm v (objs n), miss) (shifted, found)
    ])

-- A pop takes out the entry with the value that is nearest the top, and the entries above it move
-- down by one. The flag says whether there was one; if there was none, the lowest entry is lost.
pub pop-take_out :
    (ss : StackSet) (v : ℕ)
    → 0 < ss.top
    → (contents (stack_set_pop ss v).0 ≡ take_out v (contents ss))
      × ((stack_set_pop ss v).1 ≡ mem v (contents ss))
unfolding stack_set_pop
pop-take_out ss v h =
    let e : suc (ss.top - 1) ≡ ss.top = omega arith in
    subst (Popped v ss.objs ss.size) e (pop_at v ss.objs ss.size (ss.top - 1))

-- After a push the same value pops, and the stack is as it was.
pub pop-push :
    (ss : StackSet) (v : ℕ)
    → IsStack ss
    → (contents (stack_set_pop (stack_set_push ss v) v).0 ≡ contents ss)
      × ((stack_set_pop (stack_set_push ss v) v).1 ≡ true)
pop-push ss v w =
    let (pushed, _) = push-contents ss v w in
    let (popped, found) =
      pop-take_out (stack_set_push ss v) v (unfold stack_set_push in omega arith) in
    (
      popped ∙ rw pushed (take_out_hit v v (contents ss) (==-self v)),
      found ∙ rw pushed (mem_self v (contents ss)),
    )
