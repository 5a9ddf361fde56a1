-- ===== src/Interp/Choices.antt =====
-- interp1 on nested conditionals over quoted data.
use brianscheme.Base.{
  ℕ, zero, suc, ◌+◌, ◌<◌, ◌≡◌, ◌∙◌, inl, inr, true, false, some, List, arith, ◌==◌, if◌then◌else◌,
  ==-self, Bool-cases,
}
use brianscheme.Object.{Ptr, tagged, pair}
use brianscheme.Store.{Store, car, cdr}
use brianscheme.Store.Types.{is_atom}
use brianscheme.Vm.Frame.{is_falselike}
use brianscheme.Interp.{Runtime, Evaluator, interp1, eval_body, eval_form, eval_if, branch, is_sane}

-- A quoted datum, or a choice by the value of a choice.
pub data Choice : Type 0 where
  datum : Ptr → Choice
  choose : Choice → Choice → Choice → Choice

-- What a choice stands for: neither #f nor the empty list chooses the first.
abbrev pub value : Store → Choice → Ptr
value s (datum v) = v
value s (choose test this that) =
    let v = value s test in
    if v == s.false_object
    then value s that
    else if v == s.empty_list
    then value s that
    else value s this

abbrev pub IsCell : Store → Ptr → Ptr → Ptr → Type 0
IsCell s p a d = (tagged p ≡ false) × ((p == s.empty_list) ≡ false) × (s.object p ≡ pair a d)

-- The object at `p` is the expression of the choice: (quote v), or (if test this that).
abbrev pub IsChoice : Store → Choice → Ptr → Type 0
IsChoice s (datum v) p = (d : Ptr) × (e : Ptr) × IsCell s p s.quote_symbol d × IsCell s d v e
IsChoice s (choose test this that) p =
    (args : Ptr) × (rest : Ptr) × (otherwise : Ptr) × (end : Ptr) × (p₁ : Ptr) × (p₂ : Ptr)
    × (p₃ : Ptr) × IsCell s p s.if_symbol args
    × IsCell s args p₁ rest
    × IsCell s rest p₂ otherwise
    × IsCell s otherwise p₃ end
    × IsChoice s test p₁
    × IsChoice s this p₂
    × IsChoice s that p₃

-- What init sets up, as far as conditionals go.
pub record IsSetUp (s : Store) : Type 0 where
  pub sane : is_sane (s.object s.empty_list) ≡ true
  pub not_quote : (s.if_symbol == s.quote_symbol) ≡ false
  pub not_begin : (s.if_symbol == s.begin_symbol) ≡ false
  pub not_set : (s.if_symbol == s.set_symbol) ≡ false

abbrev pub depth : Choice → ℕ
depth (datum v) = 0
depth (choose test this that) = suc (depth test + (depth this + depth that))

form_of :
    (w : Runtime) (fuel : ℕ) (eval : Evaluator) (s : Store) (stack : List Ptr) (top p env a d : Ptr)
    → IsSetUp s
    → IsCell s p a d
    → eval_body w fuel eval s stack top p env ≡ eval_form w fuel eval s stack top p env
unfolding eval_body is_atom
form_of w fuel eval s stack top p env a d i (t, n, at) = rw (at, i.sane, t, n)

quote_of :
    (w : Runtime) (fuel : ℕ) (eval : Evaluator) (s : Store) (stack : List Ptr)
    (top p env v d e : Ptr)
    → IsCell s p s.quote_symbol d
    → IsCell s d v e
    → eval_form w fuel eval s stack top p env ≡ some (v, s, stack)
unfolding eval_form car cdr
quote_of w fuel eval s stack top p env v d e (_, _, at) (_, _, at') =
    rw (at, ==-self s.quote_symbol, at')

if_of :
    (w : Runtime) (fuel : ℕ) (eval : Evaluator) (s : Store) (stack : List Ptr) (top p env d : Ptr)
    → IsSetUp s
    → IsCell s p s.if_symbol d
    → eval_form w fuel eval s stack top p env ≡ eval_if eval s stack top p env
unfolding eval_form car
if_of w fuel eval s stack top p env d i (_, _, at) =
    rw (at, i.not_quote, i.not_begin, i.not_set, ==-self s.if_symbol)

branch_of :
    (s : Store) (v p₁ p₂ p₃ args rest otherwise end : Ptr)
    → IsCell s args p₁ rest
    → IsCell s rest p₂ otherwise
    → IsCell s otherwise p₃ end
    → branch s v args ≡ some (some (if is_falselike s v then p₃ else p₂))
unfolding branch car cdr
branch_of s v p₁ p₂ p₃ args rest otherwise end (_, _, at) (_, _, at') (_, n, at'') =
    elim (Bool-cases (is_falselike s v)) [
      | inl e ↦ rw (at, at', e, n, at'')
      | inr e ↦ rw (at, at', e)
    ]

eval_if_of :
    (eval : Evaluator) (s : Store) (stack : List Ptr) (top p env args p₁ h v chosen : Ptr) (d : Ptr)
    → IsCell s p h args
    → IsCell s args p₁ d
    → eval s stack top p₁ env ≡ some (v, s, stack)
    → branch s v args ≡ some (some chosen)
    → eval_if eval s stack top p env ≡ eval s stack top chosen env
unfolding eval_if car cdr
eval_if_of eval s stack top p env args p₁ h v chosen d (_, _, at) (_, _, at') run b =
    rw (at, at', run, b)

-- interp1 of an expression of quoted data and nested conditionals, with enough fuel and symbols as
-- init makes them, gives the datum that the conditionals choose, where #f and the empty list choose
-- the third expression and every other datum the second, and changes neither the store nor the
-- stack.
pub interp1-value :
    (w : Runtime) (e : Choice) (fuel : ℕ) (s : Store) (stack : List Ptr) (top p env : Ptr)
    → IsSetUp s
    → IsChoice s e p
    → depth e < fuel
    → interp1 fuel w s stack top p env ≡ some (value s e, s, stack)
unfolding interp1 is_falselike
interp1-value w e zero s stack top p env i c lt = absurd (omega arith)
interp1-value w (datum v) (suc fuel) s stack top p env i (d, e, cell, cell') lt =
    form_of w fuel (interp1 fuel w) s stack top p env s.quote_symbol d i cell
    ∙ quote_of w fuel (interp1 fuel w) s stack top p env v d e cell cell'
interp1-value w (choose test this that) (suc fuel) s stack top p env i
      (args, rest, otherwise, end, p₁, p₂, p₃, c, c₁, c₂, c₃, e₁, e₂, e₃) lt =
    let eval = interp1 fuel w in
    let v = value s test in
    form_of w fuel eval s stack top p env s.if_symbol args i c
    ∙ if_of w fuel eval s stack top p env args i c
    ∙ eval_if_of eval s stack top p env args p₁ s.if_symbol v (if is_falselike s v then p₃ else p₂)
        rest c c₁ (interp1-value w test fuel s stack top p₁ env i e₁ (omega arith))
        (branch_of s v p₁ p₂ p₃ args rest otherwise end c₁ c₂ c₃)
    ∙ elim (Bool-cases (v == s.false_object)) [
      | inl f ↦ rw f (interp1-value w that fuel s stack top p₃ env i e₃ (omega arith))
      | inr f ↦ elim (Bool-cases (v == s.empty_list)) [
        | inl g ↦ rw (f, g) (interp1-value w that fuel s stack top p₃ env i e₃ (omega arith))
        | inr g ↦ rw (f, g) (interp1-value w this fuel s stack top p₂ env i e₂ (omega arith))
      ]
    ]
