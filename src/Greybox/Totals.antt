-- ===== src/Greybox/Totals.antt =====
-- greybox/fuzzer.rs: the counters after a number of rounds.
use diffuzzer.Prelude.{
  ℕ, ◌+◌, ◌≡◌, refl, ap, subst, ◌||◌, Bool, false, Option, none, some, List, get_elem?,
}
use diffuzzer.Operation.{Workload}
use diffuzzer.Outcome.{DiffCompleted}
use diffuzzer.Coverage
use diffuzzer.Coverage.{CoverageMap, Seed, is_interesting, coverage}
use diffuzzer.Generator.Draws.{Random}
use diffuzzer.Fallible.{Step, Ensures, Ensures-bind, Ensures-pure, Ensures-modify, Ensures-if}
use diffuzzer.Fuzzer.{World, State}
use diffuzzer.Fuzzer.Counters.{
  Counts, on_world-Counts, send_stats-Counts, fuzz_input-Counts, run-Counts,
}
use diffuzzer.Blackbox.Stats.{GreyBoxStats}
use diffuzzer.Greybox.Mutate.{Settings}
use diffuzzer.Greybox.Fuzz.{
  Grey, Fuzzing, scheduled, picked, pick_input, add_to_corpus, fst_opinion, snd_opinion, compared,
  fuzz_one, run_greybox,
}

-- A change of what the grey-box fuzzer adds to the state leaves the counters alone.
Counts-extra :
    {W C R : Type 0} {A : Type 0} (n : ℕ) (m : Step (State W C (Grey R) GreyBoxStats) A)
    → ((s : State W C (Grey R) GreyBoxStats)
        → (extra : Grey R) × ((m s).1 ≡ record s { extra = extra }))
    → Ensures (Counts 0 n) m (λ _. Counts 0 n)
Counts-extra n m h = record {
  at = λ s s' a p e.
      let (extra, changed) = h s in
      subst (Counts 0 n) (ap (λ q. q.1) e)
        (rw changed (record { crashes = p.crashes; executions = p.executions }));
}

module _ {W C R : Type 0} (random : Random R) (depth steps retries attempts : ℕ)
    (settings : Settings) where
  picked_extra :
      (o : Option Workload) (s : Fuzzing W C R)
      → (extra : Grey R) × ((picked random depth steps retries attempts settings o s).1
          ≡ record s { extra = extra })
  picked_extra (some workload) s = (_, refl)
  picked_extra none s = scheduled_extra (Coverage.choose s.extra.next_index s.extra.corpus) s
    where
      scheduled_extra :
          (c : Option Workload × (ℕ × List Seed)) (s : Fuzzing W C R)
          → (extra : Grey R) × ((scheduled random depth steps retries attempts settings c s).1
              ≡ record s { extra = extra })
      scheduled_extra (none, (i, corpus)) s = (_, refl)
      scheduled_extra (some seed, (i, corpus)) s = (_, refl)

  pick_input-Counts :
      (n : ℕ)
      → Ensures
          (Counts 0 n)
          (pick_input {W = W} {C = C} random depth steps retries attempts settings)
          (λ _. Counts 0 n)
  unfolding pick_input
  pick_input-Counts n =
      Counts-extra n _ (λ s. picked_extra (get_elem? s.extra.initial_corpus s.extra.next_initial) s)

module _ {W C R : Type 0} (world : World W C)
    (save_input : Workload → DiffCompleted C → Step W (Unit {0}))
    (fst_covered snd_covered : W → C → Option CoverageMap) (save_corpus : Bool) where
  compared-Counts :
      (n : ℕ) (input : Workload) (diff : DiffCompleted C)
      → Ensures
          (Counts 0 n)
          (compared {R = R} world save_input fst_covered snd_covered save_corpus input diff)
          (λ _. Counts 0 n)
  unfolding compared fst_opinion snd_opinion add_to_corpus
  compared-Counts n input diff =
      Ensures-bind _ (λ _. Counts 0 n) _ _ _ (Counts-extra n _ (λ s. (_, refl)))
        λ fst.
          Ensures-bind _ (λ _. Counts 0 n) _ _ _ (Counts-extra n _ (λ s. (_, refl)))
            λ snd.
              Ensures-if _ _ (is_interesting fst || is_interesting snd) _ _
                (Ensures-bind _ (λ _. Counts 0 n) _ _ _
                  (Ensures-modify _ _ _
                    (λ s p. record { crashes = p.crashes; executions = p.executions }))
                  λ _.
                    Ensures-bind _ (λ _. Counts 0 n) _ _ _ (send_stats-Counts world _ n false)
                      λ _.
                        Ensures-if _ _ save_corpus _ _ (on_world-Counts 0 n (save_input input diff))
                          (Ensures-pure _ _ _ (λ s p. p)))
                (Ensures-pure _ _ _ (λ s p. p))

  -- A run of the grey-box fuzzer over `count` tests that ends without an error has counted one
  -- execution for each test and one crash for each report that is not an accident, modulo 2^64.
  pub run_greybox-Counts :
      (random : Random R) (depth steps retries attempts : ℕ) (settings : Settings) (n count : ℕ)
      (s s' : Fuzzing W C R)
      → Counts 0 n s
      → run_greybox world save_input fst_covered snd_covered save_corpus random depth steps retries
          attempts settings count s
        ≡ (some tt, s')
      → Counts 0 (n + count) s'
  unfolding run_greybox fuzz_one
  run_greybox-Counts random depth steps retries attempts settings n count s s' p e =
      (run-Counts world _ n count _ (λ k.
          Ensures-bind _ (λ _. Counts 0 k) _ _ _
            (pick_input-Counts random depth steps retries attempts settings k)
            λ input. fuzz_input-Counts world _ k _ input (compared-Counts k input))).at
        s s' tt p e
