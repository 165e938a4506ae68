-- ===== src/Greybox/Mutate.antt =====
-- diffuzzer/src/fuzzing/greybox/mutator.rs. The loop of `mutate` runs until enough mutations have
-- succeeded, which the source does not bound: `attempts` is how often it may try, and `overflow` its
-- end.
use diffuzzer.Prelude.{
  ℕ, zero, suc, Bool, true, false, not, Option, none, some, map, if◌then◌else◌, ltb, leb, length,
  retain, is_empty, ◌-◌,
}
use diffuzzer.Operation.{OperationWeights, Workload}
use diffuzzer.Fs.State.{Result, ok, err, panic, overflow}
use diffuzzer.Generator.Draws.{Random, kind_at}
use diffuzzer.Mutator
use diffuzzer.Mutator.Kind.{MutationKind, MutationWeights, same_kind}

-- `Mutator`, without its random generator
pub record Settings : Type 0 where
  pub operation_weights : OperationWeights
  pub mutation_weights : MutationWeights
  pub max_length : ℕ
  pub max_mutations : ℕ

unfoldable pub drop_if : Bool → MutationKind → MutationWeights → MutationWeights
drop_if b kind weights = if b then retain (λ x. not (same_kind x.0 kind)) weights else weights

-- The mutations that apply to the workload.
unfoldable pub applicable : Settings → Workload → MutationWeights
applicable settings input =
    drop_if (leb settings.max_length (length input)) MutationKind.insert
      (drop_if (is_empty input) MutationKind.remove settings.mutation_weights)

-- The workload after a try, and whether it was mutated.
abbrev pub replaced : Workload → Result (Option Workload) → Result (Bool × Workload)
replaced input (ok none) = ok (false, input)
replaced input (ok (some workload)) = ok (true, workload)
replaced input (err e) = err e
replaced input panic = panic
replaced input overflow = overflow

-- The rest of the loop after one try: only a success counts.
abbrev pub count_try :
    {R : Type 0}
    → (ℕ → R → Workload → Result Workload × R)
    → ℕ
    → Result (Bool × Workload) × R
    → Result Workload × R
count_try loop n (ok (true, input), rng) = loop n rng input
count_try loop n (ok (false, input), rng) = loop (suc n) rng input
count_try loop n (err e, rng) = (err e, rng)
count_try loop n (panic, rng) = (panic, rng)
count_try loop n (overflow, rng) = (overflow, rng)

module _ {R : Type 0} (random : Random R) (depth steps retries : ℕ) (settings : Settings) where
  abbrev pub mutate_as : R → Workload → Result MutationKind → Result (Bool × Workload) × R
  mutate_as rng input (ok MutationKind.insert) =
      let (index, rng') = random.range 0 (length input) rng in
      let (r, rng'') =
        Mutator.insert random depth steps retries rng' input index settings.operation_weights in
      (replaced input r, rng'')
  mutate_as rng input (ok MutationKind.remove) =
      if is_empty input
      then (panic, rng)
      else (let (index, rng') = random.range 0 (length input - 1) rng in
          (replaced input (Mutator.remove depth input index), rng'))
  mutate_as rng input (err e) = (err e, rng)
  mutate_as rng input panic = (panic, rng)
  mutate_as rng input overflow = (overflow, rng)

  unfoldable pub mutate_once : R → Workload → Result (Bool × Workload) × R
  mutate_once rng input =
      let weights = applicable settings input in
      let (i, rng') = random.weighted (map (λ e. e.1) weights) rng in
      mutate_as rng' input (kind_at weights i)

  -- `while count < n`, with `n` the mutations that are still to be made
  unfoldable pub mutate_loop : ℕ → ℕ → R → Workload → Result Workload × R
  mutate_loop attempts zero rng input = (ok input, rng)
  mutate_loop zero (suc n) rng input = (overflow, rng)
  mutate_loop (suc attempts) (suc n) rng input =
      count_try (mutate_loop attempts) n (mutate_once rng input)

  -- `random_range` panics on an empty range.
  unfoldable pub mutate : ℕ → R → Workload → Result Workload × R
  mutate attempts rng input =
      if ltb 0 settings.max_mutations
      then (let (n, rng') = random.range 1 settings.max_mutations rng in
          mutate_loop attempts n rng' input)
      else (panic, rng)
