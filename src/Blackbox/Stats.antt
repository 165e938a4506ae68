-- ===== src/Blackbox/Stats.antt =====
-- broker.rs, the statistics and their sums. Sums of `u64` wrap.
use diffuzzer.Prelude.{ℕ, Option, none, some, List, [], ◌∷◌, map, max, add64}

pub record BlackBoxStats : Type 0 where
  pub crashes : ℕ
  pub executions : ℕ

pub data CoverageType : Type 0 where
  no_coverage kcov lcov : CoverageType

pub record GreyBoxStats : Type 0 where
  pub corpus_size : ℕ
  pub fst_coverage_size : ℕ
  pub fst_coverage_type : CoverageType
  pub snd_coverage_size : ℕ
  pub snd_coverage_type : CoverageType
  pub crashes : ℕ
  pub executions : ℕ

-- `fold(0, |acc, s| acc + …)`
unfoldable pub fold_sum : ℕ → List ℕ → ℕ
fold_sum acc [] = acc
fold_sum acc (n ∷ ns) = fold_sum (add64 acc n) ns

-- `Iterator::max`
abbrev pub greater : ℕ → Option ℕ → Option ℕ
greater a none = some a
greater a (some b) = some (max a b)

unfoldable pub maximum : List ℕ → Option ℕ
maximum [] = none
maximum (a ∷ rest) = greater a (maximum rest)

unfoldable pub aggregate_blackbox : List BlackBoxStats → BlackBoxStats
aggregate_blackbox stats = record {
  executions = fold_sum 0 (map (λ (s : BlackBoxStats). s.executions) stats);
  crashes = fold_sum 0 (map (λ (s : BlackBoxStats). s.crashes) stats);
}

-- The `unwrap` of a maximum and of the first element panics on no statistics: `none`.
abbrev pub with_sizes : List GreyBoxStats → Option ℕ → Option ℕ → Option ℕ → Option GreyBoxStats
with_sizes (s ∷ rest) (some corpus_size) (some fst_size) (some snd_size) = some (record {
  corpus_size = corpus_size;
  fst_coverage_size = fst_size;
  fst_coverage_type = s.fst_coverage_type;
  snd_coverage_size = snd_size;
  snd_coverage_type = s.snd_coverage_type;
  executions = fold_sum 0 (map (λ (s : GreyBoxStats). s.executions) (s ∷ rest));
  crashes = fold_sum 0 (map (λ (s : GreyBoxStats). s.crashes) (s ∷ rest));
})
with_sizes stats corpus_size fst_size snd_size = none

unfoldable pub aggregate_greybox : List GreyBoxStats → Option GreyBoxStats
aggregate_greybox stats =
    with_sizes stats (maximum (map (λ (s : GreyBoxStats). s.corpus_size) stats))
      (maximum (map (λ (s : GreyBoxStats). s.fst_coverage_size) stats))
      (maximum (map (λ (s : GreyBoxStats). s.snd_coverage_size) stats))
