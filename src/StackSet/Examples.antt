-- ===== src/StackSet/Examples.antt =====
-- Tests of the model of the stack_set of gc.c, and its theorems at a small stack.
use brianscheme.Base.{◌≡◌, refl, [], ◌∷◌, arith}
use brianscheme.Base.Members.{mem}
use brianscheme.StackSet.{StackSet, make_stack_set, stack_set_push, stack_set_pop}
use brianscheme.StackSet.Laws.{IsStack, contents, take_out, pop-take_out}

-- Two slots, both taken by the first two pushes.
abbrev three : StackSet
three = stack_set_push (stack_set_push (stack_set_push (make_stack_set (λ i. 99) 2) 10) 20) 30

three-contents : contents three ≡ 30 ∷ 20 ∷ 10 ∷ []
unfolding stack_set_push make_stack_set
three-contents = refl

pop_lower : contents (stack_set_pop three 10).0 ≡ 30 ∷ 20 ∷ []
unfolding stack_set_push stack_set_pop make_stack_set
pop_lower = refl

pop_absent : contents (stack_set_pop three 11).0 ≡ 30 ∷ 20 ∷ []
unfolding stack_set_push stack_set_pop make_stack_set
pop_absent = refl

three-IsStack : IsStack three
unfolding stack_set_push make_stack_set
three-IsStack = record { room = omega arith; fits = omega arith }

pop-take_out_example :
    (contents (stack_set_pop three 20).0 ≡ take_out 20 (contents three))
    × ((stack_set_pop three 20).1 ≡ mem 20 (contents three))
pop-take_out_example = pop-take_out three 20 (unfold stack_set_push in omega arith)
