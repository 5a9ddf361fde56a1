-- ===== src/Interp/Texts/Decimals.antt =====
-- interp.c: a number, its text, and the number of that text.
use brianscheme.Base.{
  ℕ, ◌^◌, ◌≤◌, ◌<◌, ◌≡◌, refl, false, Option, some, List, [], ◌∷◌, ◌>>=◌, ==-self, length,
}
use brianscheme.Object.{Ptr, tagged, Data, fixnum}
use brianscheme.Store.{Store, write, alloc, make_fixnum, make_string}
use brianscheme.Store.Symbols.{two_free}
use brianscheme.Read.Datum.{Host, string_to_number}
use brianscheme.Syntax.Numbers.{atol-print_long}
use brianscheme.Syntax.Scans.{points-print_long}
use brianscheme.Interp.Primitives.{Primitive, argument}
use brianscheme.Interp.Texts.{TextFault, number_to_string_proc, string_to_number_proc}

-- A call of a primitive on the result of another, and what the result of that is.
abbrev pub on_result : Primitive → Primitive → Store → List Ptr → ℕ → ℕ → Option Data
on_result before after s args n top = do
  r ← before s args n top
  r' ← after r.1 (r.0 ∷ []) 1 1
  some (r'.1.object r'.0)

-- With two free objects, `string->number` of what `number->string` gives for a fixnum is a fixnum of
-- the same 64 bits, whatever the texts of messages and the format of doubles.
pub string_to_number_proc-number_to_string_proc :
    (h : Host) (format : ℕ → List ℕ) (text : TextFault → List ℕ) (s : Store) (args : List Ptr)
    → (n top : ℕ) → {p v : ℕ} → argument 0 args n top ≡ some p
    → tagged p ≡ false
    → s.object p ≡ fixnum v
    → v < 2 ^ 64
    → 2 ≤ length s.free
    → on_result (number_to_string_proc format text) (string_to_number_proc h) s args n top
      ≡ some (fixnum v)
unfolding number_to_string_proc string_to_number_proc string_to_number make_fixnum make_string alloc
    write
string_to_number_proc-number_to_string_proc h format text s args n top {p = p} {v = v} first plain
      at small room =
    let (q, r, ps, e) = two_free s.free room in
    rw (first, plain, at, e, ==-self q, points-print_long v, ==-self r, atol-print_long v small)
      refl
