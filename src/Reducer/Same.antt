-- ===== src/Reducer/Same.antt =====
-- When `same_diff` takes two differences for the same.
use diffuzzer.Prelude.{
  ◌≡◌, ◌≢◌, ◌↔◌, refl, Bool, true, false, List, [], ◌∷◌, ◌==◌, ==_iff, length, arith, inl, inr,
  Bool-cases,
}
use diffuzzer.PathName.Laws.{text_eq_iff}
use diffuzzer.Dash.{FileInfo, FileDiff, file_is_different, only_one_exists}
use diffuzzer.Trace.{TraceDiff, row_is_different, different_length}
use diffuzzer.Trace.Differences.{Alike, ignore_index_equal_iff}
use diffuzzer.Outcome.{DiffCompleted}
use diffuzzer.Reducer.{bool_eq, info_eq, file_diff_eq, dash_eq, same_row, same_rows, same_diff}

bool_eq_iff : (a b : Bool) → (bool_eq a b ≡ true) ↔ (a ≡ b)
unfolding bool_eq
bool_eq_iff true true = (λ _. refl, λ _. refl)
bool_eq_iff true false = (λ e. absurd (cc), λ e. absurd (cc))
bool_eq_iff false true = (λ e. absurd (cc), λ e. absurd (cc))
bool_eq_iff false false = (λ _. refl, λ _. refl)

info_eq_iff : (a b : FileInfo) → (info_eq a b ≡ true) ↔ (a ≡ b)
unfolding info_eq
info_eq_iff a b = ground (
  arith,
  text_eq_iff a.abs_path b.abs_path,
  text_eq_iff a.rel_path b.rel_path,
  ==_iff a.gid b.gid,
  ==_iff a.uid b.uid,
  ==_iff a.size b.size,
  ==_iff a.nlink b.nlink,
  ==_iff a.mode b.mode,
  bool_eq_iff a.is_dir b.is_dir,
)

file_diff_eq_iff : (d e : FileDiff) → (file_diff_eq d e ≡ true) ↔ (d ≡ e)
unfolding file_diff_eq
file_diff_eq_iff (file_is_different a b) (file_is_different c d) =
    ground (arith, info_eq_iff a c, info_eq_iff b d)
file_diff_eq_iff (only_one_exists a) (only_one_exists b) = ground (arith, info_eq_iff a b)
file_diff_eq_iff (file_is_different a b) (only_one_exists c) = ground arith
file_diff_eq_iff (only_one_exists a) (file_is_different c d) = ground arith

dash_eq_iff : (ds es : List FileDiff) → (dash_eq ds es ≡ true) ↔ (ds ≡ es)
unfolding dash_eq
dash_eq_iff [] [] = (λ _. refl, λ _. refl)
dash_eq_iff [] (e ∷ es) = ground arith
dash_eq_iff (d ∷ ds) [] = ground arith
dash_eq_iff (d ∷ ds) (e ∷ es) = ground (arith, file_diff_eq_iff d e, dash_eq_iff ds es)

-- Two trace differences are the same but for the indices of the rows.
abbrev pub SameRow : TraceDiff → TraceDiff → Type 0
SameRow different_length different_length = Unit
SameRow (row_is_different a b) (row_is_different c d) = Alike a c × Alike b d
SameRow different_length (row_is_different c d) = ⊥
SameRow (row_is_different a b) different_length = ⊥

abbrev pub SameRows : List TraceDiff → List TraceDiff → Type 0
SameRows [] [] = Unit
SameRows [] (e ∷ es) = ⊥
SameRows (d ∷ ds) [] = ⊥
SameRows (d ∷ ds) (e ∷ es) = SameRow d e × SameRows ds es

same_row_iff : (d e : TraceDiff) → (same_row d e ≡ true) ↔ SameRow d e
unfolding same_row
same_row_iff different_length different_length = (λ _. tt, λ _. refl)
same_row_iff (row_is_different a b) (row_is_different c d) =
    ground (arith, ignore_index_equal_iff a c, ignore_index_equal_iff b d)
same_row_iff different_length (row_is_different c d) = (λ e. absurd (cc), λ e. absurd e)
same_row_iff (row_is_different a b) different_length = (λ e. absurd (cc), λ e. absurd e)

same_rows_iff :
    (ds es : List TraceDiff) → length ds ≡ length es → (same_rows ds es ≡ true) ↔ SameRows ds es
unfolding same_rows
same_rows_iff [] [] h = (λ _. tt, λ _. refl)
same_rows_iff [] (e ∷ es) h = absurd (omega arith)
same_rows_iff (d ∷ ds) [] h = absurd (omega arith)
same_rows_iff (d ∷ ds) (e ∷ es) h =
    ground (arith, same_row_iff d e, same_rows_iff ds es (omega arith))

SameRows-length : (ds es : List TraceDiff) → SameRows ds es → length ds ≡ length es
SameRows-length [] [] h = refl
SameRows-length [] (e ∷ es) h = absurd h
SameRows-length (d ∷ ds) [] h = absurd h
SameRows-length (d ∷ ds) (e ∷ es) h = omega (arith, SameRows-length ds es h.1)

-- Two differences are taken for the same exactly when their trace parts agree row by row, up to the
-- indices of the rows, and their dash parts are equal.
pub same_diff_iff :
    {C : Type 0} (old new : DiffCompleted C)
    → (same_diff old new ≡ true)
      ↔ (SameRows old.trace_diff new.trace_diff × (old.dash_diff ≡ new.dash_diff))
unfolding same_diff
same_diff_iff old new = elim (Bool-cases (length old.trace_diff == length new.trace_diff)) [
  | inl same ↦
      let len : length old.trace_diff ≡ length new.trace_diff = ground arith in
      ground (
        arith,
        same,
        same_rows_iff old.trace_diff new.trace_diff len,
        dash_eq_iff old.dash_diff new.dash_diff,
      )
  | inr other ↦
      let no : length old.trace_diff ≢ length new.trace_diff = λ e. ground arith in
      ground (arith, other, no, SameRows-length old.trace_diff new.trace_diff)
]
