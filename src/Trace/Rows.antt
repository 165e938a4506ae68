-- ===== src/Trace/Rows.antt =====
-- What `Trace::try_parse` returns.
use diffuzzer.Prelude.{
  ℕ, ◌≡◌, refl, ap₂, List, [], ◌∷◌, map, if◌then◌else◌, leb, length, is_empty, drop, ◌==◌, inl, inr,
  Bool-cases, arith,
}
use diffuzzer.Text.{trim, trim_end, split_at}
use diffuzzer.Trace.{Trace, TraceRow, Parsed, ok, err, parse_columns, parse_rows, try_parse, ◌>>=◌}

-- The lines before the first blank one.
abbrev pub until_blank : List (List ℕ) → List (List ℕ)
until_blank [] = []
until_blank (line ∷ lines) =
    let rest = until_blank lines in if is_empty (trim line) then [] else line ∷ rest

>>=-ok :
    {A B : Type 0} (m : Parsed A) (f : A → Parsed B) (b : B)
    → (m >>= f) ≡ ok b
    → (a : A) × ((m ≡ ok a) × (f a ≡ ok b))
unfolding ◌>>=◌
>>=-ok (ok a) f b h = (a, (refl, h))
>>=-ok (err e) f b h = absurd (cc)

source_of_ok :
    (line : List ℕ) (cs : List (List ℕ)) (row : TraceRow)
    → parse_columns line cs ≡ ok row
    → row.source ≡ trim_end line
unfolding parse_columns
source_of_ok line (c0 ∷ c1 ∷ c2 ∷ c3 ∷ c4 ∷ []) row h =
    let (index, (_, h1)) = >>=-ok _ _ row h in
    let (code, (_, h2)) = >>=-ok _ _ row h1 in
    let (errno, (_, h3)) = >>=-ok _ _ row h2 in ok-source row _ h3
  where
    ok-source : (a b : TraceRow) → ok b ≡ ok a → a.source ≡ b.source
    ok-source a b e = ground arith
source_of_ok line [] row h = absurd (cc)
source_of_ok line (c0 ∷ []) row h = absurd (cc)
source_of_ok line (c0 ∷ c1 ∷ []) row h = absurd (cc)
source_of_ok line (c0 ∷ c1 ∷ c2 ∷ []) row h = absurd (cc)
source_of_ok line (c0 ∷ c1 ∷ c2 ∷ c3 ∷ []) row h = absurd (cc)
source_of_ok line (c0 ∷ c1 ∷ c2 ∷ c3 ∷ c4 ∷ c5 ∷ cs) row h = absurd (cc)

parse_row-sources :
    (line : List ℕ) (lines : List (List ℕ)) (rows : Trace)
    → ((rest : Trace)
        → parse_rows lines ≡ ok rest
        → map TraceRow.source rest ≡ map trim_end (until_blank lines))
    → (do
      row ← parse_columns line (split_at (λ c. c == b',') line)
      rest ← parse_rows lines
      ok (row ∷ rest))
      ≡ ok rows
    → map TraceRow.source rows ≡ trim_end line ∷ map trim_end (until_blank lines)
parse_row-sources line lines rows ih g =
    let (row, (e1, h1)) = >>=-ok _ _ rows g in
    let (rest, (e2, h2)) = >>=-ok _ _ rows h1 in
    let same : rows ≡ row ∷ rest = ground arith in
    rw same (ap₂ ◌∷◌ (source_of_ok line _ row e1) (ih rest e2))

parse_rows-sources :
    (lines : List (List ℕ)) (rows : Trace)
    → parse_rows lines ≡ ok rows
    → map TraceRow.source rows ≡ map trim_end (until_blank lines)
parse_rows-sources [] rows h = let e : rows ≡ [] = unfold parse_rows in ground arith in rw e refl
parse_rows-sources (line ∷ lines) rows h = elim (Bool-cases (is_empty (trim line))) [
  | inl blank ↦ let e : rows ≡ [] = unfold parse_rows in ground arith in rw (blank, e) refl
  | inr full ↦ rw full (
      parse_row-sources line lines rows (parse_rows-sources lines)
        (unfold parse_rows in ground (arith, h)))
]

-- A trace that parses has one row for each line between the header and the first blank line, in
-- order, and each row keeps the text of its line without the white space at the end.
pub try_parse-sources :
    (text : List ℕ) (trace : Trace)
    → try_parse text ≡ ok trace
    → map TraceRow.source trace
      ≡ map trim_end (until_blank (drop 1 (split_at (λ c. c == b'\n') text)))
unfolding try_parse
try_parse-sources text trace h =
    elim (Bool-cases (leb (length (split_at (λ c. c == b'\n') text)) 1)) [
      | inl few ↦ absurd (ground arith)
      | inr many ↦ parse_rows-sources _ trace (ground arith)
    ]
