-- ===== src/Trace/Differences.antt =====
-- What two traces have in common when no difference is found.
use diffuzzer.Prelude.{
  ◌≡◌, ◌↔◌, refl, ap, true, [], ◌∷◌, ◌==◌, length, arith, inl, inr, Bool-cases, ==_iff,
}
use diffuzzer.PathName.Laws.{text_eq_iff}
use diffuzzer.Text.{ℤ, pos, negsuc}
use diffuzzer.Trace.{
  Trace, TraceRow, Errno, int_eq, errno_eq, ignore_index_equal, row_eq, diff_rows, diff,
}

int_eq_iff : (a b : ℤ) → (int_eq a b ≡ true) ↔ (a ≡ b)
unfolding int_eq
int_eq_iff (pos m) (pos n) = ground arith
int_eq_iff (negsuc m) (negsuc n) = ground arith
int_eq_iff (pos m) (negsuc n) = ground arith
int_eq_iff (negsuc m) (pos n) = ground arith

errno_eq_iff : (a b : Errno) → (errno_eq a b ≡ true) ↔ (a ≡ b)
unfolding errno_eq
errno_eq_iff a b = ground (arith, text_eq_iff a.name b.name, int_eq_iff a.code b.code)

-- The fields that `ignore_index_equal` compares.
abbrev pub Alike : TraceRow → TraceRow → Type 0
Alike a b =
    ((a.command ≡ b.command) × (a.return_code ≡ b.return_code))
    × ((a.extra ≡ b.extra) × (a.errno ≡ b.errno))

-- Two rows are equal up to their index exactly when they have the same command, return code, extra
-- text and errno.
pub ignore_index_equal_iff : (a b : TraceRow) → (ignore_index_equal a b ≡ true) ↔ Alike a b
unfolding ignore_index_equal
ignore_index_equal_iff a b = ground (
  arith,
  text_eq_iff a.command b.command,
  int_eq_iff a.return_code b.return_code,
  text_eq_iff a.extra b.extra,
  errno_eq_iff a.errno b.errno,
)

pub row_eq_iff : (a b : TraceRow) → (row_eq a b ≡ true) ↔ (a ≡ b)
unfolding row_eq
row_eq_iff a b =
    ground
      (arith, ==_iff a.index b.index, ignore_index_equal_iff a b, text_eq_iff a.source b.source)

diff_rows_iff : (xs ys : Trace) → length xs ≡ length ys → (diff_rows xs ys ≡ []) ↔ (xs ≡ ys)
unfolding diff_rows
diff_rows_iff [] [] h = (λ _. refl, λ _. refl)
diff_rows_iff [] (b ∷ ys) h = absurd (omega arith)
diff_rows_iff (a ∷ xs) [] h = absurd (omega arith)
diff_rows_iff (a ∷ xs) (b ∷ ys) h =
    ground (arith, row_eq_iff a b, diff_rows_iff xs ys (omega arith))

-- The trace objective finds no difference exactly when the two traces have the same rows.
pub diff_iff : (xs ys : Trace) → (diff xs ys ≡ []) ↔ (xs ≡ ys)
unfolding diff
diff_iff xs ys = elim (Bool-cases (length xs == length ys)) [
  | inl same ↦ rw same (diff_rows_iff xs ys (ground arith))
  | inr other ↦
      rw other (
        λ e. absurd (cc),
        λ e. absurd (let l : length xs ≡ length ys = ap length e in ground arith),
      )
]
