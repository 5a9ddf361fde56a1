-- ===== src/Env/Examples.antt =====
-- The theorems on environments of interp.c at a small store.
use brianscheme.Base.{◌≡◌, refl, some, List, arith, [], ◌∷◌, ◌==◌, if◌then◌else◌}
use brianscheme.Object.{Ptr, symbol, pair, nil}
use brianscheme.Store.Blank.{blank}
use brianscheme.Store.{Store}
use brianscheme.Env.{lookup_variable_value, define_variable}
use brianscheme.Env.Frames.{Frame, AreFrames}
use brianscheme.Env.Assign.{lookup_variable_value-define_variable}
use brianscheme.Env.Rest.{define_variable_rest}

-- The environment 200 has one frame, 208, that binds the symbols 8 and 40 to 64 and 72, and the rest
-- parameter 56 to no values. The environment 300 has, inside it, the frame 308 of the symbol 8 itself.
abbrev two_variables : Store
two_variables = record blank {
  object = λ p.
      if p == 8
      then symbol (97 ∷ [])
      else if p == 300
      then pair 308 200
      else if p == 308
      then pair 8 96
      else if p == 200
      then pair 208 96
      else if p == 208
      then pair 216 232
      else if p == 216
      then pair 8 224
      else if p == 224
      then pair 40 56
      else if p == 56
      then symbol (98 ∷ [])
      else if p == 232
      then pair 64 240
      else if p == 240
      then pair 72 96
      else nil;
}

abbrev frames : List Frame
frames =
    record {
      spine = 200;
      frame = 208;
      bindings =
          record { cell = 216; name = 8; slot = 232 }
          ∷ record { cell = 224; name = 40; slot = 240 }
          ∷ [];
      last = 56;
      extra = 96;
    }
    ∷ []

frames-AreFrames : AreFrames two_variables frames
frames-AreFrames = (
  record {
    linked = refl;
    paired = refl;
    ends = refl;
    closed = refl;
    binds = (
      record { named = refl; plain = refl; value = 64; valued = refl; kept = refl },
      (record { named = refl; plain = refl; value = 72; valued = refl; kept = refl }, tt),
    );
  },
  tt,
)

lookup_variable_value-define_variable_example :
    (s : Store) × (old : Ptr) × (rest : Ptr) × (define_variable 9 two_variables 216 40 80 200
      ≡ some s)
    × (lookup_variable_value 9 [] two_variables 216 8 200 ≡ some (old, two_variables))
    × (lookup_variable_value 9 [] s 216 8 200 ≡ some (if 232 == 240 then 80 else old, s))
    × ((q : Ptr) → s.object q ≡ (if q == 240 then pair 80 rest else two_variables.object q))
    × AreFrames s frames
lookup_variable_value-define_variable_example =
    lookup_variable_value-define_variable 9 [] two_variables 216 40 8 240 232 80 frames
      frames-AreFrames (λ b m. ground arith) (omega arith) refl refl refl refl

define_variable_rest_example :
    (s : Store) × (define_variable 9 two_variables 216 8 80 300 ≡ some s)
    × (lookup_variable_value 9 [] two_variables 216 8 300 ≡ some (96, two_variables))
    × (lookup_variable_value 9 [] s 216 8 300 ≡ some (96, s))
    × (lookup_variable_value 8 [] s 216 8 200 ≡ some (80, s))
define_variable_rest_example =
    define_variable_rest 8 [] two_variables 216 8 232 80 300 308 96 frames
      (record { linked = refl; paired = refl; ends = refl; no_list = refl }) refl frames-AreFrames
      (λ b m. ground arith) (omega arith) refl refl
