-- ===== src/Vm/Opcodes/Examples.antt =====
-- A symbol table of the opcodes, each with its label, and the symbol of `lvar` taken to its code and back.
use brianscheme.Base.{
  ℕ, zero, suc, ◌+◌, ◌-◌, ◌*◌, ◌/◌, ◌≡◌, refl, inl, inr, some, List, [], ◌∷◌, if◌then◌else◌, ◌==◌,
  ltb, get_elem?, get_or, true, arith, Option-cases, ◌∙◌,
}
use brianscheme.Object.{Ptr, symbol, pair, alien, vector, the_empty_list, null}
use brianscheme.Store.{Store, make_symbol, varray}
use brianscheme.Store.Blank.{blank}
use brianscheme.Vm.Bytecode.{alien_ptr}
use brianscheme.Vm.Opcodes.{
  bytecode_str, label_at, Covers, AreDistinct, symbol_to_code_proc, code_to_symbol_proc,
  code_to_symbol_proc-symbol_to_code_proc,
}

-- n addresses, from the one of number i on.
abbrev addresses : ℕ → ℕ → ℕ → List Ptr
addresses start i zero = []
addresses start i (suc n) = (start + 8 * i) ∷ addresses start (suc i) n

-- The symbols stand from 1000 on, the cells of the symbol table from 2000 on, the labels from 3000
-- on, and dispatch_table at 900.
abbrev store : Store
store = record blank {
  object = λ p.
      if ltb 2999 p
      then alien p 96
      else if p == 900
      then vector (addresses 3000 0 27)
      else if p == 96
      then the_empty_list null null
      else if ltb p 2000
      then symbol (get_or bytecode_str ((p - 1000) / 8) [])
      else pair (p - 1000) (if p == 2208 then 96 else p + 8);
  symbol_table = 2000;
}

store-Covers : Covers 28 store (addresses 3000 0 27) 0 (addresses 1000 0 27) bytecode_str
unfolding make_symbol
store-Covers = (
  (3000, 3000, refl, refl, refl),
  (
    (3008, 3008, refl, refl, refl),
    (
      (3016, 3016, refl, refl, refl),
      (
        (3024, 3024, refl, refl, refl),
        (
          (3032, 3032, refl, refl, refl),
          (
            (3040, 3040, refl, refl, refl),
            (
              (3048, 3048, refl, refl, refl),
              (
                (3056, 3056, refl, refl, refl),
                (
                  (3064, 3064, refl, refl, refl),
                  (
                    (3072, 3072, refl, refl, refl),
                    (
                      (3080, 3080, refl, refl, refl),
                      (
                        (3088, 3088, refl, refl, refl),
                        (
                          (3096, 3096, refl, refl, refl),
                          (
                            (3104, 3104, refl, refl, refl),
                            (
                              (3112, 3112, refl, refl, refl),
                              (
                                (3120, 3120, refl, refl, refl),
                                (
                                  (3128, 3128, refl, refl, refl),
                                  (
                                    (3136, 3136, refl, refl, refl),
                                    (
                                      (3144, 3144, refl, refl, refl),
                                      (
                                        (3152, 3152, refl, refl, refl),
                                        (
                                          (3160, 3160, refl, refl, refl),
                                          (
                                            (3168, 3168, refl, refl, refl),
                                            (
                                              (3176, 3176, refl, refl, refl),
                                              (
                                                (3184, 3184, refl, refl, refl),
                                                (
                                                  (3192, 3192, refl, refl, refl),
                                                  (
                                                    (3200, 3200, refl, refl, refl),
                                                    ((3208, 3208, refl, refl, refl), tt),
                                                  ),
                                                ),
                                              ),
                                            ),
                                          ),
                                        ),
                                      ),
                                    ),
                                  ),
                                ),
                              ),
                            ),
                          ),
                        ),
                      ),
                    ),
                  ),
                ),
              ),
            ),
          ),
        ),
      ),
    ),
  ),
)

-- An address that is found is the one of its number.
found_address :
    (start i n k : ℕ) {p : Ptr}
    → get_elem? (addresses start i n) k ≡ some p
    → p ≡ start + 8 * (i + k)
found_address start i zero k h = cc
found_address start i (suc n) zero {p = p} h = (let q : start + 8 * i ≡ p = cc in omega arith)
found_address start i (suc n) (suc k) h = found_address start (suc i) n k h ∙ omega arith

-- The label of number i is its address.
label_of :
    (i label : ℕ) → label_at store (addresses 3000 0 27) i ≡ some label → label ≡ 3000 + 8 * i
label_of i label h = elim (Option-cases (get_elem? (addresses 3000 0 27) i)) [
  | inl e ↦ (let h' = rw e at h in cc)
  | inr (p, e) ↦
      let place = found_address 3000 0 27 i e in
      let large : ltb 2999 p ≡ true = ground (arith, place) in
      let h' = rw (e, large) at h in (let q : p ≡ label = cc in omega (arith, q, place))
]

store-AreDistinct : AreDistinct store (addresses 3000 0 27)
store-AreDistinct i j label h k = omega (arith, label_of i label h, label_of j label k)

code_to_symbol_proc-symbol_to_code_proc_example :
    (entry : Ptr) × (label : ℕ) × (symbol_to_code_proc 900
        (addresses 1000 0 27)
        store
        (1112 ∷ [])
        1
        1
      ≡ some (entry, store))
    × (alien_ptr store entry ≡ some label)
    × (code_to_symbol_proc 28 900 store (entry ∷ []) 1 1 ≡ some (1112, store))
unfolding varray
code_to_symbol_proc-symbol_to_code_proc_example =
    code_to_symbol_proc-symbol_to_code_proc 28 store 900 (addresses 1000 0 27) (1112 ∷ []) 1 1 refl
      refl store-Covers store-AreDistinct
      (inr (inr (inr (inr (inr (inr (inr (inr (inr (inr (inr (inr (inr (inr (inl refl)))))))))))))))
