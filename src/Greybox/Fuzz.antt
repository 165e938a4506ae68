-- ===== src/Greybox/Fuzz.antt =====
-- greybox/fuzzer.rs, with the queue as its scheduler, and the feedback that has no coverage. What a run
-- covered is read from a file (KCov) or told by an observer (LCov): a part of the world, `none` if it
-- cannot be read.
use diffuzzer.Prelude.{
  ℕ, ◌+◌, Bool, true, false, ◌&&◌, ◌||◌, Option, none, some, List, [], ◌∷◌, ◌++◌, if◌then◌else◌,
  ltb, length, get_elem?,
}
use diffuzzer.Operation.{OperationKind, OperationWeights, Workload, kind_of, same_kind}
use diffuzzer.Outcome.{DiffCompleted}
use diffuzzer.Coverage
use diffuzzer.Coverage.{
  InputCoverage, CoverageMap, FeedbackOpinion, interesting, not_interesting, is_interesting,
  coverage, opinion, Seed, new_seed,
}
use diffuzzer.Generator.Draws.{Random}
use diffuzzer.Fallible.{Step, ◌>>=◌, ◌>>◌, pure, modify}
use diffuzzer.Fuzzer.{World, State, on_world, send_stats, fuzz_input, run}
use diffuzzer.Blackbox.{answer}
use diffuzzer.Blackbox.Stats.{GreyBoxStats, CoverageType, no_coverage, kcov, lcov}
use diffuzzer.Greybox.Mutate.{Settings, mutate}

-- A test of the given corpus is used only if each of its operations has a weight above 0.
unfoldable pub has_weight : OperationWeights → OperationKind → Bool
has_weight [] op = false
has_weight ((kind, w) ∷ weights) op = same_kind op kind && ltb 0 w || has_weight weights op

unfoldable pub all_weighted : OperationWeights → Workload → Bool
all_weighted weights [] = true
all_weighted weights (op ∷ ops) = has_weight weights (kind_of op) && all_weighted weights ops

unfoldable pub initial_corpus_of : OperationWeights → List Workload → List Workload
initial_corpus_of weights [] = []
initial_corpus_of weights (w ∷ ws) =
    let rest = initial_corpus_of weights ws in if all_weighted weights w then w ∷ rest else rest

-- A feedback: its type and its map.
pub record Feedback : Type 0 where
  pub coverage_type : CoverageType
  pub counts : CoverageMap

-- What `GreyBoxFuzzer` has besides its runner; `next_index` is the scheduler's.
pub record Grey (R : Type 0) : Type 0 where
  pub rng : R
  pub initial_corpus : List Workload
  pub next_initial : ℕ
  pub corpus : List Seed
  pub next_index : ℕ
  pub fst_feedback : Feedback
  pub snd_feedback : Feedback

unfoldable pub new_grey : {R : Type 0} → R → List Workload → CoverageType → CoverageType → Grey R
new_grey rng initial_corpus fst_type snd_type = record {
  rng = rng;
  initial_corpus = initial_corpus;
  next_initial = 0;
  corpus = new_seed [] [] [] ∷ [];
  next_index = 0;
  fst_feedback = record { coverage_type = fst_type; counts = [] };
  snd_feedback = record { coverage_type = snd_type; counts = [] };
}

abbrev pub judged : FeedbackOpinion × CoverageMap → Feedback → Option FeedbackOpinion × Feedback
judged (o, counts) f = (some o, record f { counts = counts })

-- `opinion` of a feedback on what was covered.
unfoldable pub opinion_by :
    CoverageType → Option CoverageMap → Feedback → Option FeedbackOpinion × Feedback
opinion_by no_coverage covered f = (some (not_interesting []), f)
opinion_by kcov none f = (none, f)
opinion_by kcov (some new_coverage) f = judged (opinion new_coverage f.counts) f
opinion_by lcov none f = (none, f)
opinion_by lcov (some new_coverage) f = judged (opinion new_coverage f.counts) f

abbrev pub Fuzzing : Type 0 → Type 0 → Type 0 → Type 0
Fuzzing W C R = State W C (Grey R) GreyBoxStats

module _ {W C R : Type 0} where
  unfoldable pub stats : Fuzzing W C R → GreyBoxStats
  stats s = record {
    corpus_size = length s.extra.corpus;
    fst_coverage_size = length s.extra.fst_feedback.counts;
    fst_coverage_type = s.extra.fst_feedback.coverage_type;
    snd_coverage_size = length s.extra.snd_feedback.counts;
    snd_coverage_type = s.extra.snd_feedback.coverage_type;
    executions = s.executions;
    crashes = s.crashes;
  }

  unfoldable pub add_to_corpus :
      Workload → InputCoverage → InputCoverage → Fuzzing W C R → Fuzzing W C R
  add_to_corpus input fst_coverage snd_coverage s = record s {
    extra = record s.extra {
      corpus = s.extra.corpus ++ (new_seed input fst_coverage snd_coverage ∷ []);
    };
  }

  unfoldable pub fst_opinion :
      (W → C → Option CoverageMap) → C → Step (Fuzzing W C R) FeedbackOpinion
  fst_opinion covered c s =
      let (o, f) =
        opinion_by s.extra.fst_feedback.coverage_type (covered s.world c) s.extra.fst_feedback in
      (o, record s { extra = record s.extra { fst_feedback = f } })

  unfoldable pub snd_opinion :
      (W → C → Option CoverageMap) → C → Step (Fuzzing W C R) FeedbackOpinion
  snd_opinion covered c s =
      let (o, f) =
        opinion_by s.extra.snd_feedback.coverage_type (covered s.world c) s.extra.snd_feedback in
      (o, record s { extra = record s.extra { snd_feedback = f } })

module _ {W C R : Type 0} (random : Random R) (depth steps retries attempts : ℕ)
    (settings : Settings) where
  abbrev pub mutated : Option Workload → Step (Fuzzing W C R) Workload
  mutated none s = (none, s)
  mutated (some seed) s =
      let (r, rng) = mutate random depth steps retries settings attempts s.extra.rng seed in
      (answer r, record s { extra = record s.extra { rng = rng } })

  abbrev pub scheduled : Option Workload × (ℕ × List Seed) → Step (Fuzzing W C R) Workload
  scheduled (chosen, (i, corpus)) s =
      mutated chosen (record s { extra = record s.extra { next_index = i; corpus = corpus } })

  abbrev pub picked : Option Workload → Step (Fuzzing W C R) Workload
  picked (some workload) s = (
    some workload,
    record s { extra = record s.extra { next_initial = s.extra.next_initial + 1 } },
  )
  picked none s = scheduled (Coverage.choose s.extra.next_index s.extra.corpus) s

  -- First the tests of the given corpus, in order, then mutations of seeds.
  unfoldable pub pick_input : Step (Fuzzing W C R) Workload
  pick_input s = picked (get_elem? s.extra.initial_corpus s.extra.next_initial) s

module _ {W C R : Type 0} (world : World W C)
    (save_input : Workload → DiffCompleted C → Step W (Unit {0}))
    (fst_covered snd_covered : W → C → Option CoverageMap) (save_corpus : Bool) where
  -- The rest of `fuzz_one` on a comparison without errors and differences.
  unfoldable pub compared : Workload → DiffCompleted C → Step (Fuzzing W C R) (Unit {0})
  compared input diff = do
    fst ← fst_opinion fst_covered diff.fst_outcome
    snd ← snd_opinion snd_covered diff.snd_outcome
    if is_interesting fst || is_interesting snd
        then (do
          modify (add_to_corpus input (coverage fst) (coverage snd))
          send_stats world stats false
          if save_corpus then on_world (save_input input diff) else pure tt)
        else pure tt

  module _ (random : Random R) (depth steps retries attempts : ℕ) (settings : Settings) where
    unfoldable pub fuzz_one : Step (Fuzzing W C R) (Unit {0})
    fuzz_one = do
      input ← pick_input random depth steps retries attempts settings
      fuzz_input world stats compared input

    -- `run(Some(count))`
    unfoldable pub run_greybox : ℕ → Step (Fuzzing W C R) (Unit {0})
    run_greybox count = run world stats fuzz_one count
