-- ===== src/Vm/EndFrame.antt =====
-- endframe of vm.c, on the list of the values on the machine's stack.
use brianscheme.Base.{
  ℕ, zero, suc, ◌+◌, ◌-◌, ◌≤◌, ◌≡◌, refl, sym, ap, ◌∙◌, inl, inr, some, List, [], ◌∷◌, ◌++◌, arith,
  ltb, Bool-cases, length, take, drop, set, length-append, length-set, append_assoc, append-nil,
}
use brianscheme.Object.{Ptr}
use brianscheme.Vm.{Machine, next}
use brianscheme.Vm.Frame.{endframe, move_down}
use brianscheme.Vm.Stack.{Holds, with_stack}
use brianscheme.Base.Slices.{
  take-set, drop-set, take-drop, take_less, take_front, drop_front, element_at, length-take,
}

-- The loop of endframe moves the slots from `q` on down to `p` and what follows.
move_down_lem :
    (n ii src dst p q : ℕ) (stack : List Ptr)
    → src + ii ≡ q
    → dst + ii ≡ p
    → p ≤ q
    → q + n ≤ length stack
    → (moved : List Ptr) × (move_down n ii src dst stack ≡ some moved)
      × (length moved ≡ length stack)
      × (take (p + n) moved ≡ take p stack ++ take n (drop q stack))
unfolding move_down
move_down_lem zero ii src dst p q stack eq ep le room =
    (stack, refl, refl, let e : p + 0 ≡ p = omega arith in rw (e, append-nil (take p stack)))
move_down_lem (suc n) ii src dst p q stack eq ep le room =
    let (v, found, split) = element_at stack q n (omega arith) in
    let (moved, run, size, values) =
      move_down_lem n (ii + 1) src dst (suc p) (suc q) (set stack p v) (omega arith) (omega arith)
        (omega arith) (omega (arith, length-set stack p v)) in
    (
      moved,
      rw (eq, ep, found) run,
      size ∙ length-set stack p v,
      let e : p + suc n ≡ suc p + n = omega arith in
          rw (e, split)
            (values
              ∙ rw (take-set stack p v (omega arith), drop-set stack p (suc q) v (omega arith))
                  (append_assoc (take p stack) (v ∷ []) (take n (drop (suc q) stack)))),
    )

no_length : (xs : List Ptr) → length xs ≡ 0 → xs ≡ []
no_length [] h = refl
no_length (x ∷ xs) h = absurd (omega arith)

-- endframe drops the values of the frame, from the first argument on, except the top `arg1`, which
-- it keeps in their order; it always has a result.
pub endframe-Holds :
    (m : Machine) (below frame kept : List Ptr)
    → Holds m (below ++ (frame ++ kept))
    → m.fn_first_arg ≡ length below
    → (stack : List Ptr) × (top : ℕ) × (endframe (length kept) m
        ≡ some (next (with_stack m stack top)))
      × Holds (with_stack m stack top) (below ++ kept)
unfolding endframe
endframe-Holds m below frame kept h first =
    elim (Bool-cases (ltb (m.fn_first_arg + length kept) m.stack_top)) [
      | inl lt ↦
          let (moved, run, size, values) =
            move_down_lem (length kept) 0 (m.stack_top - length kept) m.fn_first_arg (length below)
              (m.stack_top - length kept) m.stack (omega arith) (omega arith) (omega (arith, total))
              (omega (arith, total, h.fits)) in
          (
            moved,
            m.fn_first_arg + length kept,
            rw (lt, run),
            record {
              values =
                  ap (λ (k : ℕ). take (k + length kept) moved) first
                  ∙ values
                  ∙ ap
                      (λ (xs : List Ptr).
                        xs ++ take (length kept) (drop (m.stack_top - length kept) m.stack))
                      front
                  ∙ ap (λ (xs : List Ptr). below ++ xs) back;
              fits = omega (arith, size, total, h.fits, first);
              room = omega (arith, size, h.room);
            },
          )
      | inr ge ↦
          let none_left : length frame ≡ 0 = ground (arith, total) in
          (
            m.stack,
            m.fn_first_arg + length kept,
            rw ge,
            record {
              values =
                  ap (λ (k : ℕ). take k m.stack) (omega (arith, total, none_left, first))
                  ∙ h.values
                  ∙ ap (λ (xs : List Ptr). below ++ (xs ++ kept)) (no_length frame none_left);
              fits = omega (arith, total, h.fits, first);
              room = h.room;
            },
          )
    ]
  where
    total : m.stack_top ≡ length below + (length frame + length kept)
    total =
        sym (length-take m.stack_top m.stack h.fits)
        ∙ ap (λ (xs : List Ptr). length xs) h.values
        ∙ omega (arith, length-append below (frame ++ kept), length-append frame kept)

    front : take (length below) m.stack ≡ below
    front =
        sym (take_less (length below) m.stack_top m.stack (omega (arith, total)))
        ∙ ap (λ (xs : List Ptr). take (length below) xs) h.values
        ∙ take_front below (frame ++ kept)

    back : take (length kept) (drop (m.stack_top - length kept) m.stack) ≡ kept
    back =
        let q : m.stack_top - length kept ≡ length (below ++ frame) =
          omega (arith, total, length-append below frame) in
        let t : length (below ++ frame) + length kept ≡ m.stack_top =
          omega (arith, total, length-append below frame) in
        rw
          (
            q,
            take-drop (length kept) (length (below ++ frame)) m.stack,
            t,
            h.values,
            ← append_assoc below frame kept,
          )
          (drop_front (below ++ frame) kept)
