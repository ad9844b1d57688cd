-- ===== src/Cdb/Make/Finished.antt =====
-- The tables that `cdb_make_finish` writes.
use geoipdns.Base.{
  ℕ, zero, suc, ◌+◌, ◌*◌, ◌<◌, ◌≤◌, true, some, List, [], ◌∷◌, ◌++◌, length, length-append, IsU32,
  ◌≡◌, refl, sym, ap, ◌∙◌, inl, inr, Bool-cases, arith, append_assoc, append-nil,
}
use mathlib.Core.Path.{subst}
use native.Mathlib.Decide.{ℕ_discrete}
use geoipdns.Uint.{uint32_pack}
use geoipdns.Uint.RoundTrip.{length-uint32_pack}
use geoipdns.Cdb.Holds.{Holds, Holds_middle, Holds_append, Holds_behind, Holds_at}
use geoipdns.Cdb.Make.{CdbHp, CdbMake, posplus, table_of, pack_slots, posplus_slots, finish_loop}
use geoipdns.Cdb.Make.Probe.{slot}
use geoipdns.Cdb.Make.Added.{IsAhead, IsAhead-trans, posplus-IsAhead}

abbrev pub pack_slot : CdbHp → List ℕ
pack_slot hp = uint32_pack hp.h ++ uint32_pack hp.p

pub length-pack_slot : (a b : ℕ) → length (uint32_pack a ++ uint32_pack b) ≡ 8
length-pack_slot a b = omega (
  arith,
  length-append (uint32_pack a) (uint32_pack b),
  length-uint32_pack a,
  length-uint32_pack b,
)

pack_slots_first :
    (hp : CdbHp) (table : List CdbHp) → pack_slots (hp ∷ table) ≡ pack_slot hp ++ pack_slots table
unfolding pack_slots
pack_slots_first hp table =
    sym (append_assoc (uint32_pack hp.h) (uint32_pack hp.p) (pack_slots table))

pub length-pack_slots : (table : List CdbHp) → length (pack_slots table) ≡ 8 * length table
unfolding pack_slots
length-pack_slots [] = refl
length-pack_slots (hp ∷ table) =
    ap (λ (bs : List ℕ). length bs) (pack_slots_first hp table)
    ∙ omega (
      arith,
      length-append (pack_slot hp) (pack_slots table),
      length-pack_slot hp.h hp.p,
      length-pack_slots table,
    )

-- A slot of a packed table.
pub Holds_slot :
    (table : List CdbHp) (at : ℕ)
    → at < length table
    → Holds (pack_slots table) (8 * at) (pack_slot (slot table at))
Holds_slot [] at lt = absurd (omega arith)
Holds_slot (hp ∷ table) zero lt =
    rw (pack_slots_first hp table)
      (record { front = []; rest = pack_slots table; whole = refl; at = refl })
Holds_slot (hp ∷ table) (suc at) lt = rw (pack_slots_first hp table) (
    Holds_at (omega (arith, length-pack_slot hp.h hp.p))
      (Holds_behind (Holds_slot table at (omega arith)) (pack_slot hp)))

pub posplus_slots-IsAhead :
    (slots : ℕ) (c : CdbMake)
    → IsU32 c.pos
    → (posplus_slots slots c).1 ≡ true
    → IsAhead c (posplus_slots slots c).0 (8 * slots)
unfolding posplus_slots
posplus_slots-IsAhead zero c fits ok = record {
  moved = omega arith;
  in_reach = fits;
  same_written = refl;
  same_entries = refl;
  same_count = refl;
}
posplus_slots-IsAhead (suc slots) c fits ok = elim (Bool-cases ((posplus c 8).1)) [
  | inl one ↦
      let first = posplus-IsAhead c 8 fits (omega arith) one in
      let rest =
        posplus_slots-IsAhead slots (posplus c 8).0 first.in_reach
          (rw (one, posplus_slots) at ok) in
      rw (one, posplus_slots)
        (subst (λ (k : ℕ). IsAhead c (posplus_slots slots (posplus c 8).0).0 k) (omega arith)
          (IsAhead-trans first rest))
  | inr failed ↦ absurd (cc (rw (failed, posplus_slots) at ok))
]

-- Table `j` stands in the bytes behind the header, and its place and length in the header.
pub record HasTable (entries : List CdbHp) (final written : List ℕ) (j : ℕ) : Type 0 where
  pub behind : ℕ
  pub in_reach : IsU32 (2048 + behind)
  pub header :
      Holds final (8 * j) (uint32_pack (2048 + behind) ++ uint32_pack (length (table_of j entries)))
  pub slots : Holds written behind (pack_slots (table_of j entries))

-- The end of the loop over the tables, from `i` on.
pub record IsFinished (left i : ℕ) (c : CdbMake) (final : List ℕ) (c' : CdbMake) (final' : List ℕ)
    : Type 0 where
  pub more : List ℕ
  pub appended : c'.written ≡ c.written ++ more
  pub more_final : List ℕ
  pub appended_final : final' ≡ final ++ more_final
  pub at_end : c'.pos ≡ 2048 + length c'.written
  pub in_reach : IsU32 c'.pos
  pub length_final : length final' ≡ 8 * (i + left)
  pub has_table : (j : ℕ) → i ≤ j → j < i + left → HasTable c.entries final' c'.written j

module _ (i : ℕ) (c : CdbMake) (final : List ℕ) where
  abbrev table : List CdbHp
  table = table_of i c.entries

  abbrev moved_on : CdbMake
  moved_on = (posplus_slots (length table) c).0

  abbrev next_state : CdbMake
  next_state = record moved_on { written = moved_on.written ++ pack_slots table }

  abbrev next_final : List ℕ
  next_final = final ++ (uint32_pack c.pos ++ uint32_pack (length table))

  module _ (end : c.pos ≡ 2048 + length c.written) (fits : IsU32 c.pos)
      (size : length final ≡ 8 * i) (ok : (posplus_slots (length table) c).1 ≡ true) where
    ahead : IsAhead c moved_on (8 * length table)
    ahead = posplus_slots-IsAhead (length table) c fits ok

    wrote : next_state.written ≡ c.written ++ pack_slots table
    wrote = ap (λ (bs : List ℕ). bs ++ pack_slots table) ahead.same_written

    next_end : next_state.pos ≡ 2048 + length next_state.written
    next_end = omega (
      arith,
      ahead.moved,
      end,
      ap (λ (bs : List ℕ). length bs) wrote,
      length-append c.written (pack_slots table),
      length-pack_slots table,
    )

    next_size : length next_final ≡ 8 * (i + 1)
    next_size = omega (
      arith,
      length-append final (uint32_pack c.pos ++ uint32_pack (length table)),
      length-pack_slot c.pos (length table),
      size,
    )

    module _ {left : ℕ} {c' : CdbMake} {final' : List ℕ}
        (f : IsFinished left (i + 1) next_state next_final c' final') where
      this-HasTable : HasTable c.entries final' c'.written i
      this-HasTable = record {
        behind = length c.written;
        in_reach = omega (arith, end);
        header =
            rw (f.appended_final, sym end)
              (Holds_append
                (Holds_at size (
                  subst
                    (λ bs.
                      Holds bs (length final) (uint32_pack c.pos ++ uint32_pack (length table)))
                    (ap (λ (bs : List ℕ). final ++ bs) (append-nil _))
                    (Holds_middle final (uint32_pack c.pos ++ uint32_pack (length table)) [])))
                f.more_final);
        slots =
            rw (f.appended, wrote, append_assoc c.written (pack_slots table) f.more)
              (Holds_middle c.written (pack_slots table) f.more);
      }

      step-IsFinished : IsFinished (suc left) i c final c' final'
      step-IsFinished = record {
        more = pack_slots table ++ f.more;
        appended =
            f.appended
            ∙ ap (λ (bs : List ℕ). bs ++ f.more) wrote
            ∙ append_assoc c.written (pack_slots table) f.more;
        more_final = (uint32_pack c.pos ++ uint32_pack (length table)) ++ f.more_final;
        appended_final =
            f.appended_final
            ∙ append_assoc final (uint32_pack c.pos ++ uint32_pack (length table)) f.more_final;
        at_end = f.at_end;
        in_reach = f.in_reach;
        length_final = f.length_final ∙ omega arith;
        has_table = λ j le lt. elim (ℕ_discrete i j) [
          | yes same ↦ subst (λ (k : ℕ). HasTable c.entries final' c'.written k) same this-HasTable
          | no differ ↦
              subst (λ (es : List CdbHp). HasTable es final' c'.written j) ahead.same_entries
                (f.has_table j (omega arith) (omega arith))
        ];
      }

pub finish_loop-IsFinished :
    (left i : ℕ) (c : CdbMake) (final : List ℕ) {c' : CdbMake} {final' : List ℕ}
    → c.pos ≡ 2048 + length c.written
    → IsU32 c.pos
    → length final ≡ 8 * i
    → finish_loop left i c final ≡ some (c', final')
    → IsFinished left i c final c' final'
unfolding finish_loop
finish_loop-IsFinished zero i c final {c'} {final'} end fits size e =
    let same : c ≡ c' = cc in
    let same_final : final ≡ final' = cc in
    subst (λ (x : CdbMake). IsFinished zero i c final x final') same
      (subst (λ (x : List ℕ). IsFinished zero i c final c x) same_final
        (record {
          more = [];
          appended = sym (append-nil c.written);
          more_final = [];
          appended_final = sym (append-nil final);
          at_end = end;
          in_reach = fits;
          length_final = omega arith;
          has_table = λ j le lt. absurd (omega arith);
        }))
finish_loop-IsFinished (suc left) i c final {c'} {final'} end fits size e =
    elim (Bool-cases ((posplus_slots (length (table i c final)) c).1)) [
      | inl ok ↦ step-IsFinished i c final end fits size ok (
          finish_loop-IsFinished left (i + 1) (next_state i c final) (next_final i c final)
            (next_end i c final end fits size ok) (ahead i c final end fits size ok).in_reach
            (next_size i c final end fits size ok) (rw (ok, finish_loop) at e))
      | inr failed ↦ absurd (cc (rw (failed, finish_loop) at e))
    ]
