-- ===== src/Interp/Ports.antt =====
-- interp.c: the primitives that read and write ports. A FILE that is read is the list of the bytes
-- left in it, and one that is written the list of the bytes written.
pub mod Dump
use brianscheme.Base.{
  ℕ, zero, suc, ◌+◌, ◌-◌, ◌%◌, ◌^◌, Bool, not, ◌||◌, Option, none, some, List, [], ◌∷◌, ◌++◌,
  if◌then◌else◌, ◌>>=◌, ◌==◌, take, drop, length,
}
use brianscheme.Object.{Ptr, null, Data, input_port, output_port}
use brianscheme.Store.{Store, make_character, throw_message}
use brianscheme.Store.Types.{is_character, is_input_port, is_output_port}
use brianscheme.Read.Datum.{Host, lisp_read}
use brianscheme.Print.{Printer, owrite}
use brianscheme.Interp.Primitives.{argument}
use brianscheme.Interp.Texts.{char}

-- What is left in each FILE, and what was written to it.
pub record Streams : Type 0 where
  pub left : ℕ → List ℕ
  pub written : ℕ → List ℕ

pub data PortFault : Type 0 where
  read_port_expects write_port_expects write_char_expects read_char_expects : PortFault

abbrev pub Result : Type 0
Result = Option (Ptr × Store × Streams)

abbrev pub PortPrimitive : Type 0
PortPrimitive = Store → Streams → List Ptr → ℕ → ℕ → Result

abbrev pub input_of : Data → Option ℕ
input_of (input_port stream) = some stream
input_of _ = none

abbrev pub output_of : Data → Option ℕ
output_of (output_port stream) = some stream
output_of _ = none

-- INPUT and OUTPUT.
abbrev pub input : Store → Ptr → Option ℕ
input s p = input_of (s.object p)

abbrev pub output : Store → Ptr → Option ℕ
output s p = output_of (s.object p)

abbrev pub leave : Streams → ℕ → List ℕ → Streams
leave io f bytes = record io { left = λ g. if g == f then bytes else io.left g }

abbrev pub put : Streams → ℕ → List ℕ → Streams
put io f bytes = record io { written = λ g. if g == f then io.written g ++ bytes else io.written g }

abbrev pub with_streams : Streams → Option (Ptr × Store) → Result
with_streams io result = do r ← result; some (r.0, r.1, io)

-- obj_read is lisp_read; its fuel is the depth of the recursion.
unfoldable pub read_proc : ℕ → Host → (PortFault → List ℕ) → PortPrimitive
unfolding throw_message
read_proc fuel h text s io args n top = do
  in_port ← argument 0 args n top
  let read = (do
    f ← input s in_port
    r ← lisp_read fuel h s (io.left f)
    some (if r.0 == null then r.1.eof else r.0, r.1, leave io f r.2))
  (if not (is_input_port s in_port)
      then with_streams io (throw_message s (text read_port_expects))
      else read)

-- What owrite returns is dropped.
unfoldable pub write_proc : ℕ → Printer → (PortFault → List ℕ) → PortPrimitive
unfolding throw_message
write_proc fuel h text s io args n top = do
  port ← argument 1 args n top
  obj ← argument 0 args n top
  let written = (do
    f ← output s port
    r ← owrite fuel h s obj
    some (r.1.true_object, r.1, put io f r.2))
  (if not (is_output_port s port)
      then with_streams io (throw_message s (text write_port_expects))
      else written)

unfoldable pub write_char_proc : (PortFault → List ℕ) → PortPrimitive
unfolding throw_message
write_char_proc text s io args n top = do
  port ← argument 1 args n top
  ch ← argument 0 args n top
  let written = (do c ← char s ch; f ← output s port; some (s.true_object, s, put io f (c ∷ [])))
  (if not (is_character s ch) || not (is_output_port s port)
      then with_streams io (throw_message s (text write_char_expects))
      else written)

-- getc.
abbrev pub next_char : Store → Streams → ℕ → List ℕ → Result
next_char s io f [] = some (s.eof, s, io)
next_char s io f (c ∷ cs) = do p ← make_character s c; some (p, s, leave io f cs)

unfoldable pub read_char_proc : (PortFault → List ℕ) → PortPrimitive
unfolding throw_message make_character
read_char_proc text s io args n top = do
  port ← argument 0 args n top
  let read = (do f ← input s port; next_char s io f (io.left f))
  (if not (is_input_port s port)
      then with_streams io (throw_message s (text read_char_expects))
      else read)

-- ungetc of a char that is -1 is one of EOF, which changes nothing.
unfoldable pub unread_char_proc : PortPrimitive
unread_char_proc s io args n top = do
  ch ← argument 0 args n top
  port ← argument 1 args n top
  c ← char s ch
  f ← input s port
  some (s.true_object, s, if c == 255 then io else leave io f (c ∷ io.left f))

-- The loop of port_dump_proc, on fuel.
unfoldable pub dump_chunks : ℕ → ℕ → ℕ → Streams → Option Streams
dump_chunks zero in' out io = none
dump_chunks (suc fuel) in' out io =
    let chunk = take 4096 (io.left in') in
    let io' = put (leave io in' (drop 4096 (io.left in'))) out chunk in
    let rest = dump_chunks fuel in' out io' in if length chunk == 0 then some io' else rest

unfoldable pub port_dump_proc : ℕ → PortPrimitive
unfolding dump_chunks
port_dump_proc fuel s io args n top = do
  first ← argument 0 args n top
  second ← argument 1 args n top
  in' ← input s first
  out ← output s second
  io' ← dump_chunks fuel in' out io
  some (s.true_object, s, io')
