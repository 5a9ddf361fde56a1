-- ===== src/Interp/Examples.antt =====
-- interp1 of (if (if (quote #f) (quote 8) (quote ())) (quote 8) (quote 16)), with addresses for data, and calls of
-- set-car! and set-cdr! on the pair at 304, and of the primitives on vectors, numbers, tables and ports.
use brianscheme.Base.{
  ℕ, ◌-◌, ◌^◌, ◌>>=◌, ◌≡◌, refl, some, none, List, ◌∷◌, false, [], ◌==◌, arith, if◌then◌else◌,
}
use brianscheme.Object.{
  input_port, output_port, hash_table, Ptr, vector, fixnum, pair, the_empty_list, null, nil,
}
use brianscheme.Store.{Store, write, make_fixnum}
use brianscheme.HashTab.{HashTab, htb_init}
use brianscheme.HashTab.Table.{htb_init-IsTable}
use brianscheme.Read.Datum.{Host}
use brianscheme.Store.Blank.{blank}
use brianscheme.Interp.{Runtime, interp1}
use brianscheme.Interp.Primitives.{set_car_proc, set_cdr_proc, car_proc, cdr_proc}
use brianscheme.Interp.Pairs.{then_call, set_car_proc-car_proc}
use brianscheme.Interp.Numbers.{div_fixnum_proc, mod_fixnum_proc}
use brianscheme.Interp.Numbers.Division.{IsDivision, div_fixnum_proc-mod_fixnum_proc}
use brianscheme.Interp.Texts.{number_to_string_proc, string_to_number_proc}
use brianscheme.Interp.Texts.Decimals.{on_result, string_to_number_proc-number_to_string_proc}
use brianscheme.Interp.Ports.{Streams, port_dump_proc}
use brianscheme.Interp.Ports.Dump.{IsCopied, port_dump_proc_total}
use brianscheme.Interp.Tables.{
  set_hashtab_proc, get_hashtab_proc, remkey_hashtab_proc, set_hashtab_proc-get_hashtab_proc,
}
use brianscheme.Interp.Vectors.{
  set_vector_element_proc, get_vector_element_proc, set_vector_element_proc-get_vector_element_proc,
}
use brianscheme.Interp.Choices.{Choice, datum, choose, IsChoice, IsSetUp, interp1-value}

abbrev runtime : Runtime
runtime = record {
  world = record {
    word = λ codes pc. 0;
    opcode = λ label. none;
    text = λ fault. [];
    primitive = λ f s stack n top. none;
  };
  text = λ fault. [];
  printer = record { text = λ fault. []; double = λ n. []; pointer = λ n. [] };
  sigint = false;
}

abbrev store : Store
store = record blank {
  object = λ p.
      if p == 304
      then pair 192 312
      else if p == 312
      then pair 344 320
      else if p == 320
      then pair 360 328
      else if p == 328
      then pair 376 96
      else if p == 344
      then pair 192 500
      else if p == 500
      then pair 508 516
      else if p == 516
      then pair 360 524
      else if p == 524
      then pair 532 96
      else if p == 508
      then pair 152 352
      else if p == 352
      then pair 104 96
      else if p == 532
      then pair 152 540
      else if p == 540
      then pair 96 96
      else if p == 360
      then pair 152 368
      else if p == 368
      then pair 8 96
      else if p == 376
      then pair 152 384
      else if p == 384
      then pair 16 96
      else if p == 96
      then the_empty_list null null
      else nil;
}

abbrev expression : Choice
expression = choose (choose (datum 104) (datum 8) (datum 96)) (datum 8) (datum 16)

store-IsSetUp : IsSetUp store
store-IsSetUp = record { sane = refl; not_quote = refl; not_begin = refl; not_set = refl }

expression-IsChoice : IsChoice store expression 304
expression-IsChoice = (
  312,
  320,
  328,
  96,
  344,
  360,
  376,
  (refl, refl, refl),
  (refl, refl, refl),
  (refl, refl, refl),
  (refl, refl, refl),
  (
    500,
    516,
    524,
    96,
    508,
    360,
    532,
    (refl, refl, refl),
    (refl, refl, refl),
    (refl, refl, refl),
    (refl, refl, refl),
    (352, 96, (refl, refl, refl), (refl, refl, refl)),
    (368, 96, (refl, refl, refl), (refl, refl, refl)),
    (540, 96, (refl, refl, refl), (refl, refl, refl)),
  ),
  (368, 96, (refl, refl, refl), (refl, refl, refl)),
  (384, 96, (refl, refl, refl), (refl, refl, refl)),
)

interp1-value_example : interp1 9 runtime store [] 0 304 96 ≡ some (16, store, [])
interp1-value_example =
    interp1-value runtime expression 9 store [] 0 304 96 store-IsSetUp expression-IsChoice
      (omega arith)

abbrev pair_args : List Ptr
pair_args = 304 ∷ 8 ∷ []

set_car_proc-car_proc_example :
    (then_call (set_car_proc λ fault. []) (car_proc λ fault. []) store pair_args 2 2
      ≡ some (8, write store 304 (pair 8 312)))
    × (then_call (set_car_proc λ fault. []) (cdr_proc λ fault. []) store pair_args 2 2
        ≡ some (312, write store 304 (pair 8 312)))
    × (then_call (set_cdr_proc λ fault. []) (car_proc λ fault. []) store pair_args 2 2
        ≡ some (192, write store 304 (pair 192 8)))
    × (then_call (set_cdr_proc λ fault. []) (cdr_proc λ fault. []) store pair_args 2 2
        ≡ some (8, write store 304 (pair 192 8)))
set_car_proc-car_proc_example =
    set_car_proc-car_proc (λ fault. []) store pair_args 2 2 (refl, refl, refl, refl)

abbrev vectors : Store
vectors = record blank {
  object = λ p. if p == 400 then vector (96 ∷ 104 ∷ []) else if p == 416 then fixnum 1 else nil;
}

set_vector_element_proc-get_vector_element_proc_example :
    then_call set_vector_element_proc
      (get_vector_element_proc λ fault. [])
      vectors
      (400 ∷ 416 ∷ 304 ∷ [])
      3
      3
    ≡ some (304, write vectors 400 (vector (96 ∷ 304 ∷ [])))
set_vector_element_proc-get_vector_element_proc_example =
    set_vector_element_proc-get_vector_element_proc (λ fault. []) vectors (400 ∷ 416 ∷ 304 ∷ []) 3 3
      (refl, refl, refl, refl, refl, refl) (omega arith)

-- -7 and 2.
abbrev numbers : Store
numbers = record blank {
  object = λ p.
      if p == 400
      then fixnum (2 ^ 64 - 7)
      else if p == 416
      then fixnum 2
      else if p == 432
      then input_port 3
      else if p == 448
      then output_port 5
      else nil;
  free = 464 ∷ 480 ∷ [];
}

div_fixnum_proc-mod_fixnum_proc_example :
    (q : ℕ) × (r : ℕ) × (div_fixnum_proc numbers (400 ∷ 416 ∷ []) 2 2 ≡ make_fixnum numbers q)
    × (mod_fixnum_proc numbers (400 ∷ 416 ∷ []) 2 2 ≡ make_fixnum numbers r)
    × IsDivision (2 ^ 64 - 7) 2 q r
div_fixnum_proc-mod_fixnum_proc_example =
    div_fixnum_proc-mod_fixnum_proc numbers (400 ∷ 416 ∷ []) 2 2 (2 ^ 64 - 7) 2
      (400, 416, refl, refl, refl, refl) (omega arith) (omega arith) refl

abbrev host : Host
host = record { text = λ fault. []; atof = λ bytes. 0; bound = 9 }

string_to_number_proc-number_to_string_proc_example :
    on_result
      (number_to_string_proc (λ n. []) (λ fault. []))
      (string_to_number_proc host)
      numbers
      (400 ∷ [])
      1
      1
    ≡ some (fixnum (2 ^ 64 - 7))
string_to_number_proc-number_to_string_proc_example =
    string_to_number_proc-number_to_string_proc host (λ n. []) (λ fault. []) numbers (400 ∷ []) 1 1
      refl refl refl (omega arith) (omega arith)

abbrev streams : Streams
streams = record { left = λ f. 97 ∷ 98 ∷ []; written = λ f. 99 ∷ [] }

port_dump_proc_total_example :
    (io' : Streams) × (port_dump_proc 2 numbers streams (432 ∷ 448 ∷ []) 2 2
      ≡ some (112, numbers, io'))
    × IsCopied streams io' 3 5
port_dump_proc_total_example =
    port_dump_proc_total 1 numbers streams (432 ∷ 448 ∷ []) 2 2 refl refl refl refl (omega arith)

abbrev table : HashTab
table = htb_init 2 none

abbrev tables : Store
tables = record blank { object = λ p. if p == 400 then hash_table table else nil }

set_hashtab_proc-get_hashtab_proc_example :
    ((do
      r ← set_hashtab_proc tables (400 ∷ 8 ∷ 16 ∷ []) 3 3
      after ← get_hashtab_proc r.1 (400 ∷ 8 ∷ 24 ∷ []) 3 3
      some after.0)
      ≡ some 16)
    × ((do
      r ← remkey_hashtab_proc tables (400 ∷ 8 ∷ 16 ∷ []) 3 3
      after ← get_hashtab_proc r.1 (400 ∷ 8 ∷ 24 ∷ []) 3 3
      some after.0)
        ≡ some 24)
set_hashtab_proc-get_hashtab_proc_example =
    set_hashtab_proc-get_hashtab_proc tables (400 ∷ 8 ∷ 16 ∷ []) (400 ∷ 8 ∷ 24 ∷ []) 3 3 3 3
      (htb_init-IsTable 2 none (omega arith)).0 (refl, refl, refl, refl) (refl, refl, refl, refl)
      refl
