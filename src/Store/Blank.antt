-- ===== src/Store/Blank.antt =====
-- A store of no objects, with addresses for the members of global_state: what tests start from.
use brianscheme.Base.{◌==◌, if◌then◌else◌, []}
use brianscheme.Object.{nil, the_empty_list, null}
use brianscheme.Store.{Store}

abbrev pub blank : Store
blank = record {
  object = λ p. if p == 96 then the_empty_list null null else nil;
  free = [];
  empty_list = 96;
  false_object = 104;
  true_object = 112;
  eof = 120;
  error_sym = 128;
  empty_vector = 136;
  all_characters = 144;
  symbol_table = 96;
  next_uninterned_symbol = 0;
  cc_bytecode = 96;
  vm_error_restart = 96;
  quote_symbol = 152;
  quasiquote_symbol = 160;
  unquote_symbol = 168;
  unquotesplicing_symbol = 176;
  set_symbol = 184;
  if_symbol = 192;
  begin_symbol = 200;
  lambda_symbol = 208;
  global_env = 216;
  vm_env = 224;
}
