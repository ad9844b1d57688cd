-- ===== src/Cdb/Holds.antt =====
-- What stands in a file at a position, and the reads of src/cdb.c that get it.
use geoipdns.Base.{
  ℕ, ◌+◌, ◌≤◌, some, List, ◌++◌, length, length-append, take, drop, take-append, drop-append,
  append_assoc, arith, ◌≡◌, refl, sym, ap, ◌∙◌,
}
use mathlib.Core.Path.{subst}
use geoipdns.Cdb.{Cdb, cdb_read}
use geoipdns.Cdb.Match.{IsMapped, cdb_read_lem}

-- The bytes `part` stand in `file` at `pos`.
pub record Holds (file : List ℕ) (pos : ℕ) (part : List ℕ) : Type 0 where
  pub front : List ℕ
  pub rest : List ℕ
  pub whole : file ≡ front ++ (part ++ rest)
  pub at : length front ≡ pos

module _ {file part : List ℕ} {pos : ℕ} (h : Holds file pos part) where
  pub Holds_inside : pos + length part ≤ length file
  Holds_inside = omega (
    arith,
    ap (λ (bs : List ℕ). length bs) h.whole,
    h.at,
    length-append h.front (part ++ h.rest),
    length-append part h.rest,
  )

  pub Holds_bytes : take (length part) (drop pos file) ≡ part
  Holds_bytes =
      ap (λ (bs : List ℕ). take (length part) (drop pos bs)) h.whole
      ∙ ap (λ (k : ℕ). take (length part) (drop k (h.front ++ (part ++ h.rest)))) (sym h.at)
      ∙ ap (λ (bs : List ℕ). take (length part) bs) (drop-append h.front (part ++ h.rest))
      ∙ take-append part h.rest

  pub Holds-cdb_read : (c : Cdb) → IsMapped c file → cdb_read c (length part) pos ≡ some part
  Holds-cdb_read c mapped =
      (cdb_read_lem c (length part) pos mapped).0 Holds_inside ∙ ap some Holds_bytes

  pub Holds_part : {k : ℕ} {sub : List ℕ} → Holds part k sub → Holds file (pos + k) sub
  Holds_part {k} {sub} s = record {
    front = h.front ++ s.front;
    rest = s.rest ++ h.rest;
    whole =
        h.whole
        ∙ ap (λ (bs : List ℕ). h.front ++ (bs ++ h.rest)) s.whole
        ∙ ap (λ (bs : List ℕ). h.front ++ bs)
            (append_assoc s.front (sub ++ s.rest) h.rest
              ∙ ap (λ (bs : List ℕ). s.front ++ bs) (append_assoc sub s.rest h.rest))
        ∙ sym (append_assoc h.front s.front (sub ++ (s.rest ++ h.rest)));
    at = omega (arith, length-append h.front s.front, h.at, s.at);
  }

  pub Holds_append : (more : List ℕ) → Holds (file ++ more) pos part
  Holds_append more = record {
    front = h.front;
    rest = h.rest ++ more;
    whole =
        ap (λ (bs : List ℕ). bs ++ more) h.whole
        ∙ append_assoc h.front (part ++ h.rest) more
        ∙ ap (λ (bs : List ℕ). h.front ++ bs) (append_assoc part h.rest more);
    at = h.at;
  }

  pub Holds_behind : (before : List ℕ) → Holds (before ++ file) (length before + pos) part
  Holds_behind before = record {
    front = before ++ h.front;
    rest = h.rest;
    whole =
        ap (λ (bs : List ℕ). before ++ bs) h.whole
        ∙ sym (append_assoc before h.front (part ++ h.rest));
    at = omega (arith, length-append before h.front, h.at);
  }

pub Holds_middle : (front part rest : List ℕ) → Holds (front ++ (part ++ rest)) (length front) part
Holds_middle front part rest = record { front = front; rest = rest; whole = refl; at = refl }

pub Holds_at :
    {file part : List ℕ} {pos pos' : ℕ} → pos ≡ pos' → Holds file pos part → Holds file pos' part
Holds_at {file} {part} e h = subst (λ (k : ℕ). Holds file k part) e h
