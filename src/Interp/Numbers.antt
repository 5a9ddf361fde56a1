-- ===== src/Interp/Numbers.antt =====
-- interp.c: the other primitives on numbers. A long is its pattern of 64 bits, signed where the test or
-- the division is; a double is a bit pattern, and what the machine and math.h compute of doubles are
-- arguments.
pub mod Division
use brianscheme.Base.{
  ℕ, zero, suc, ◌+◌, ◌-◌, ◌*◌, ◌/◌, ◌%◌, ◌^◌, Bool, not, ◌&&◌, ◌||◌, Option, some, none, List,
  if◌then◌else◌, ◌>>=◌, ltb, ◌==◌,
}
use Prim.Native.Nat.{bit_and, bit_or, bit_xor}
use brianscheme.Object.{Ptr, tagged, Data, fixnum, floatnum, character, string}
use brianscheme.Store.{Store, make_fixnum, same_text, is_fixnum, is_string}
use brianscheme.Store.Types.{make_real, is_real, is_character}
use brianscheme.Interp.Primitives.{Primitive, argument, long, as_bool, on_longs}

-- Doubles, and the functions of math.h. `of_long` and `to_long` are the conversions.
pub record Reals : Type 0 where
  pub add : ℕ → ℕ → ℕ
  pub sub : ℕ → ℕ → ℕ
  pub mul : ℕ → ℕ → ℕ
  pub div : ℕ → ℕ → ℕ
  pub fmod : ℕ → ℕ → ℕ
  pub pow : ℕ → ℕ → ℕ
  pub equal : ℕ → ℕ → Bool
  pub less : ℕ → ℕ → Bool
  pub sin : ℕ → ℕ
  pub cos : ℕ → ℕ
  pub tan : ℕ → ℕ
  pub sqrt : ℕ → ℕ
  pub log : ℕ → ℕ
  pub floor : ℕ → ℕ
  pub ceil : ℕ → ℕ
  pub round : ℕ → ℕ
  pub of_long : ℕ → ℕ
  pub to_long : ℕ → ℕ

abbrev pub is_negative : ℕ → Bool
is_negative a = not (ltb a (2 ^ 63))

abbrev pub magnitude : ℕ → ℕ
magnitude a = if ltb a (2 ^ 63) then a else 2 ^ 64 - a

-- The pattern of a number of the sign and the magnitude given.
abbrev pub with_sign : Bool → ℕ → ℕ
with_sign negative n = if negative then (2 ^ 64 - n) % 2 ^ 64 else n

-- The machine traps on a division by zero and on the one quotient that a long does not hold.
abbrev pub traps : ℕ → ℕ → Bool
traps a b = b == 0 || a == 2 ^ 63 && b == 2 ^ 64 - 1

-- a / b on longs, which rounds to zero.
abbrev pub quotient : ℕ → ℕ → ℕ
quotient a b =
    let q = magnitude a / magnitude b in
    if is_negative a then with_sign (not (is_negative b)) q else with_sign (is_negative b) q

-- a % b on longs, which has the sign of `a`.
abbrev pub remainder : ℕ → ℕ → ℕ
remainder a b = with_sign (is_negative a) (magnitude a % magnitude b)

abbrev pub dividing : (ℕ → ℕ → ℕ) → Primitive
dividing f s args n top = do
  first ← argument 0 args n top
  second ← argument 1 args n top
  a ← long s first
  b ← long s second
  (if traps a b then none else make_fixnum s (f a b))

unfoldable pub div_fixnum_proc : Primitive
unfolding make_fixnum
div_fixnum_proc = dividing quotient

unfoldable pub mod_fixnum_proc : Primitive
unfolding make_fixnum
mod_fixnum_proc = dividing remainder

unfoldable pub logand_proc : Primitive
logand_proc = on_longs bit_and

unfoldable pub logor_proc : Primitive
logor_proc = on_longs bit_or

unfoldable pub logxor_proc : Primitive
logxor_proc = on_longs bit_xor

-- `result` is unsigned, so a shift to the right brings in zeros; one by 64 or more has no result.
unfoldable pub ash_proc : Primitive
unfolding make_fixnum
ash_proc s args n_args top = do
  first ← argument 0 args n_args top
  second ← argument 1 args n_args top
  result ← long s first
  n ← long s second
  (if ltb 63 (magnitude n)
      then none
      else if is_negative n || n == 0
      then make_fixnum s (result / 2 ^ magnitude n)
      else make_fixnum s (result * 2 ^ n % 2 ^ 64))

abbrev pub compare_longs : (ℕ → ℕ → Bool) → Primitive
compare_longs test s args n top = do
  first ← argument 0 args n top
  second ← argument 1 args n top
  a ← long s first
  b ← long s second
  as_bool s (test a b)

-- a < b on longs.
abbrev pub less_long : ℕ → ℕ → Bool
less_long a b =
    if is_negative a then not (is_negative b) || ltb a b else not (is_negative b) && ltb a b

unfoldable pub is_number_equal_fixnum_proc : Primitive
is_number_equal_fixnum_proc = compare_longs λ a b. a == b

unfoldable pub is_less_than_fixnum_proc : Primitive
is_less_than_fixnum_proc = compare_longs less_long

unfoldable pub is_greater_than_fixnum_proc : Primitive
is_greater_than_fixnum_proc = compare_longs λ a b. less_long b a

abbrev pub double_of : Data → Option ℕ
double_of (floatnum value) = some value
double_of _ = none

-- DOUBLE.
abbrev pub double : Store → Ptr → Option ℕ
double s p = double_of (s.object p)

abbrev pub on_doubles : (ℕ → ℕ → ℕ) → Primitive
on_doubles f s args n top = do
  first ← argument 0 args n top
  second ← argument 1 args n top
  a ← double s first
  b ← double s second
  make_real s (f a b)

unfoldable pub add_real_proc : Reals → Primitive
add_real_proc h = on_doubles h.add

unfoldable pub sub_real_proc : Reals → Primitive
sub_real_proc h = on_doubles h.sub

unfoldable pub mul_real_proc : Reals → Primitive
mul_real_proc h = on_doubles h.mul

unfoldable pub div_real_proc : Reals → Primitive
div_real_proc h = on_doubles h.div

unfoldable pub mod_real_proc : Reals → Primitive
mod_real_proc h = on_doubles h.fmod

unfoldable pub pow_real_proc : Reals → Primitive
pow_real_proc h = on_doubles h.pow

unfoldable pub pow_fixnum_proc : Reals → Primitive
pow_fixnum_proc h = on_longs λ a b. h.to_long (h.pow (h.of_long a) (h.of_long b))

abbrev pub compare_doubles : (ℕ → ℕ → Bool) → Primitive
compare_doubles test s args n top = do
  first ← argument 0 args n top
  second ← argument 1 args n top
  a ← double s first
  b ← double s second
  as_bool s (test a b)

unfoldable pub is_number_equal_real_proc : Reals → Primitive
is_number_equal_real_proc h = compare_doubles h.equal

unfoldable pub is_less_than_real_proc : Reals → Primitive
is_less_than_real_proc h = compare_doubles h.less

unfoldable pub is_greater_than_real_proc : Reals → Primitive
is_greater_than_real_proc h = compare_doubles λ a b. h.less b a

-- A double made of the first argument, a long or a double.
abbrev pub real_of : (Store → Ptr → Option ℕ) → (ℕ → ℕ) → Primitive
real_of value f s args n top = do
  first ← argument 0 args n top
  input ← value s first
  make_real s (f input)

unfoldable pub sin_fixnum_proc : Reals → Primitive
sin_fixnum_proc h = real_of long λ a. h.sin (h.of_long a)

unfoldable pub sin_real_proc : Reals → Primitive
sin_real_proc h = real_of double h.sin

unfoldable pub cos_fixnum_proc : Reals → Primitive
cos_fixnum_proc h = real_of long λ a. h.cos (h.of_long a)

unfoldable pub cos_real_proc : Reals → Primitive
cos_real_proc h = real_of double h.cos

unfoldable pub tan_fixnum_proc : Reals → Primitive
tan_fixnum_proc h = real_of long λ a. h.tan (h.of_long a)

unfoldable pub tan_real_proc : Reals → Primitive
tan_real_proc h = real_of double h.tan

unfoldable pub sqrt_fixnum_proc : Reals → Primitive
sqrt_fixnum_proc h = real_of long λ a. h.sqrt (h.of_long a)

unfoldable pub sqrt_real_proc : Reals → Primitive
sqrt_real_proc h = real_of double h.sqrt

unfoldable pub log_fixnum_proc : Reals → Primitive
log_fixnum_proc h = real_of long λ a. h.log (h.of_long a)

unfoldable pub log_real_proc : Reals → Primitive
log_real_proc h = real_of double h.log

unfoldable pub fixnum_to_real_proc : Reals → Primitive
fixnum_to_real_proc h = real_of long h.of_long

abbrev pub rounded : (ℕ → ℕ) → (ℕ → ℕ) → Primitive
rounded to_long f s args n top = do
  first ← argument 0 args n top
  input ← double s first
  make_fixnum s (to_long (f input))

unfoldable pub floor_proc : Reals → Primitive
floor_proc h = rounded h.to_long h.floor

unfoldable pub ceil_proc : Reals → Primitive
ceil_proc h = rounded h.to_long h.ceil

unfoldable pub round_proc : Reals → Primitive
round_proc h = rounded h.to_long h.round
