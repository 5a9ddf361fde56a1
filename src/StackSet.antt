-- ===== src/StackSet.antt =====
-- The stack_set of gc.c, which holds roots and finalizable objects. The array is a function from
-- index to content; what REALLOC leaves above the old size is arbitrary, and so it is here.
mod Examples
pub mod Laws
use brianscheme.Base.{
  ℕ, zero, suc, ◌+◌, ◌-◌, ◌*◌, Bool, true, false, List, [], ◌∷◌, ◌==◌, if◌then◌else◌,
}

pub record StackSet : Type 0 where
  pub objs : ℕ → ℕ
  pub top : ℕ
  pub size : ℕ

unfoldable pub make_stack_set : (ℕ → ℕ) → ℕ → StackSet
make_stack_set fresh initial_size = record { objs = fresh; top = 0; size = initial_size }

unfoldable pub clear_stack_set : StackSet → StackSet
clear_stack_set ss = record ss { top = 0 }

abbrev pub write : (ℕ → ℕ) → ℕ → ℕ → ℕ → ℕ
write objs i v j = if j == i then v else objs j

unfoldable pub stack_set_push : StackSet → ℕ → StackSet
stack_set_push ss value =
    let size = if ss.top == ss.size then ss.size * 2 else ss.size in
    record { objs = write ss.objs ss.top value; top = ss.top + 1; size = size }

-- The loop of stack_set_pop. `n` is idx + 1, so that the loop ends at 0.
unfoldable pub scan_back : ℕ → ℕ → ℕ → (ℕ → ℕ) → (ℕ → ℕ) × Bool
scan_back zero value last objs = (objs, false)
scan_back (suc idx) value last objs =
    let temp = objs idx in
    let shifted = write objs idx last in
    let rest = scan_back idx value temp shifted in if temp == value then (shifted, true) else rest

-- The code reads objs[-1] of an empty stack; this is for 0 < top.
unfoldable pub stack_set_pop : StackSet → ℕ → StackSet × Bool
unfolding scan_back
stack_set_pop ss value =
    let top = ss.top - 1 in
    let (objs, done) = scan_back top value (ss.objs top) ss.objs in
    if ss.objs top == value
    then (record ss { top = top }, true)
    else (record ss { objs = objs; top = top }, done)
