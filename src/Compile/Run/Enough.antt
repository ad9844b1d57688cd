-- ===== src/Compile/Run/Enough.antt =====
-- The loop of src/vdnsdb.c over the lines, and its rounds.
use geoipdns.Base.{
  ℕ, zero, suc, ◌+◌, ◌<◌, true, false, Option, none, some, List, length, length-drop, ◌≡◌, inl, inr,
  Bool-cases, Option-cases, arith,
}
use geoipdns.Compile.Parse.{byte_chr, getln}
use geoipdns.Compile.Run.{Progress, one_line, lines_loop}

-- What is left behind a line with its end is shorter.
length-getln : (input : List ℕ) → (getln input).1 ≡ true → length (getln input).2 < length input
unfolding getln
length-getln input ended = ground (arith, length-drop (byte_chr input b'\n' + 1) input, ended)

-- The loop without a limit of rounds: a line is refused, or it is the last one, or the loop goes on
-- behind it.
pub data Lines (defaultsoa : List ℕ) : List ℕ → Progress → Option Progress → Type 0 where
  refused :
      {input : List ℕ} {s : Progress}
      → one_line defaultsoa (getln input).0 s ≡ none
      → Lines defaultsoa input s none
  last :
      {input : List ℕ} {s s' : Progress}
      → one_line defaultsoa (getln input).0 s ≡ some s'
      → (getln input).1 ≡ false
      → Lines defaultsoa input s (some s')
  more :
      {input : List ℕ} {s s' : Progress} {o : Option Progress}
      → one_line defaultsoa (getln input).0 s ≡ some s'
      → (getln input).1 ≡ true
      → Lines defaultsoa (getln input).2 s' o
      → Lines defaultsoa input s o

lines_loop-Lines :
    (fuel : ℕ) (defaultsoa input : List ℕ) (s : Progress)
    → length input < fuel
    → Lines defaultsoa input s (lines_loop fuel defaultsoa input s)
unfolding lines_loop
lines_loop-Lines zero defaultsoa input s enough = absurd (omega arith)
lines_loop-Lines (suc fuel) defaultsoa input s enough =
    elim (Option-cases (one_line defaultsoa (getln input).0 s)) [
      | inl e ↦ rw (e, lines_loop) (refused e)
      | inr (s', e) ↦ elim (Bool-cases ((getln input).1)) [
        | inl ended ↦
            rw (e, ended, lines_loop)
              (more e ended (
                lines_loop-Lines fuel defaultsoa (getln input).2 s'
                  (omega (arith, length-getln input ended))))
        | inr is_last ↦ rw (e, is_last, lines_loop) (last e is_last)
      ]
    ]

-- For every input, the loop of `main` over the lines ends by itself, as the source has it: after
-- finitely many lines that have an end and succeed, each from where the one before it ended, there is
-- one that is refused, or one without an end, which is the last, and the model's result is that of
-- this end. With a round for each byte of the input, and one more, the loop never runs out of rounds.
pub lines_loop_enough :
    (defaultsoa input : List ℕ) (s : Progress)
    → Lines defaultsoa input s (lines_loop (length input + 1) defaultsoa input s)
lines_loop_enough defaultsoa input s =
    lines_loop-Lines (length input + 1) defaultsoa input s (omega arith)
