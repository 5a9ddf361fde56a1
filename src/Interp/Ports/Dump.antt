-- ===== src/Interp/Ports/Dump.antt =====
-- interp.c: port_dump_proc copies all that is left in a FILE.
use brianscheme.Base.{
  ℕ, zero, suc, ◌*◌, ◌≤◌, ◌≡◌, refl, ap, ◌∙◌, inl, inr, false, some, List, [], ◌∷◌, ◌++◌, arith,
  ◌==◌, ==→eq, ==-self, Bool-cases, take, drop, length, append_assoc,
}
use brianscheme.Base.Slices.{length-take_le, length-drop}
use brianscheme.Object.{Ptr, input_port, output_port}
use brianscheme.Store.{Store}
use brianscheme.Interp.Primitives.{argument}
use brianscheme.Interp.Ports.{Streams, leave, put, dump_chunks, port_dump_proc}

-- All that was left in `f` stands behind what `g` had, and the other FILEs are as they were.
pub record IsCopied (io io' : Streams) (f g : ℕ) : Type 0 where
  pub source_empty : io'.left f ≡ []
  pub target : io'.written g ≡ io.written g ++ io.left f
  pub left_kept : (k : ℕ) → (k == f) ≡ false → io'.left k ≡ io.left k
  pub written_kept : (k : ℕ) → (k == g) ≡ false → io'.written k ≡ io.written k

module _ {A : Type 0} where
  take-nil : (xs : List A) → length (take 4096 xs) ≡ 0 → xs ≡ []
  take-nil [] h = refl
  take-nil (x ∷ xs) h = absurd (omega arith)

  halves : (n : ℕ) (xs : List A) → take n xs ++ drop n xs ≡ xs
  halves zero xs = refl
  halves (suc n) [] = refl
  halves (suc n) (x ∷ xs) = ap (λ ys. x ∷ ys) (halves n xs)

-- The FILEs after a chunk.
abbrev pub moved : Streams → ℕ → ℕ → Streams
moved io f g = put (leave io f (drop 4096 (io.left f))) g (take 4096 (io.left f))

last_chunk :
    (io : Streams) (f g : ℕ) → length (take 4096 (io.left f)) ≡ 0 → IsCopied io (moved io f g) f g
last_chunk io f g h =
    let none_left : io.left f ≡ [] = take-nil (io.left f) h in
    record {
      source_empty = rw (==-self f, none_left);
      target = rw (==-self g, none_left);
      left_kept = λ k e. rw e;
      written_kept = λ k e. rw e;
    }

earlier_chunk : (io io' : Streams) (f g : ℕ) → IsCopied (moved io f g) io' f g → IsCopied io io' f g
earlier_chunk io io' f g w = record {
  source_empty = w.source_empty;
  target =
      w.target
      ∙ rw (==-self g, ==-self f)
          (append_assoc (io.written g) (take 4096 (io.left f)) (drop 4096 (io.left f))
            ∙ ap (λ xs. io.written g ++ xs) (halves 4096 (io.left f)));
  left_kept = λ k e. w.left_kept k e ∙ rw e;
  written_kept = λ k e. w.written_kept k e ∙ rw e;
}

-- A round for each chunk, and one more, is enough.
dump_chunks_lem :
    (fuel f g : ℕ) (io : Streams)
    → length (io.left f) ≤ 4096 * fuel
    → (io' : Streams) × (dump_chunks (suc fuel) f g io ≡ some io') × IsCopied io io' f g
unfolding dump_chunks
dump_chunks_lem zero f g io h =
    let none_left : length (take 4096 (io.left f)) ≡ 0 =
      omega (arith, length-take_le 4096 (io.left f)) in
    (moved io f g, rw none_left, last_chunk io f g none_left)
dump_chunks_lem (suc fuel) f g io h = elim (Bool-cases (length (take 4096 (io.left f)) == 0)) [
  | inl e ↦ (moved io f g, rw e, last_chunk io f g (==→eq _ 0 e))
  | inr e ↦
      let (io', run, w) =
        dump_chunks_lem fuel f g (moved io f g)
          (rw (==-self f) (omega (arith, length-drop 4096 (io.left f)))) in
      (io', rw (e, run), earlier_chunk io io' f g w)
]

-- port_dump_proc ends, with a round of its loop for every 4096 bytes that are left in the FILE of its
-- first argument and one more: it copies all of them, in order, behind what was written to the FILE
-- of its second argument, leaves none, changes no other FILE and returns true.
pub port_dump_proc_total :
    (fuel : ℕ) (s : Store) (io : Streams) (args : List Ptr)
    → (n top : ℕ) → {p q f g : ℕ} → argument 0 args n top ≡ some p
    → argument 1 args n top ≡ some q
    → s.object p ≡ input_port f
    → s.object q ≡ output_port g
    → length (io.left f) ≤ 4096 * fuel
    → (io' : Streams) × (port_dump_proc (suc fuel) s io args n top ≡ some (s.true_object, s, io'))
      × IsCopied io io' f g
unfolding port_dump_proc
port_dump_proc_total fuel s io args n top {f = f} {g = g} first second at_p at_q h =
    let (io', run, w) = dump_chunks_lem fuel f g io h in
    (io', rw (first, second, at_p, at_q, run), w)
