-- ===== src/Greybox/Corpus.antt =====
-- greybox/fuzzer.rs: the seeds of the corpus.
use diffuzzer.Prelude.{
  ℕ, zero, suc, ◌≤◌, ◌<◌, ◌≡◌, refl, ap, subst, ◌||◌, Bool, false, Option, none, some, List, [],
  ◌∷◌, arith, length, get_elem?, update_at, All, All-append, length-append, length-update_at, max,
  add64,
}
use diffuzzer.Operation.{Workload}
use diffuzzer.Fs.State.{Result, ok, err, panic, overflow}
use diffuzzer.Outcome.{DiffCompleted}
use diffuzzer.Coverage
use diffuzzer.Coverage.{CoverageMap, Seed, is_interesting, coverage, choose_this, new_seed}
use diffuzzer.Generator.Draws.{Random, RandomLaws}
use diffuzzer.Fallible.{Step, Ensures, Ensures-bind, Ensures-pure, Ensures-modify, Ensures-if}
use diffuzzer.Fuzzer.{World}
use diffuzzer.Fuzzer.Extra.{Extra, on_world-Extra, send_stats-Extra, fuzz_input-Extra, run-Extra}
use diffuzzer.Blackbox.{answer}
use diffuzzer.Blackbox.Stats.{GreyBoxStats}
use diffuzzer.Greybox.Mutate.{Settings, mutate}
use diffuzzer.Greybox.Length.{length-mutate}
use diffuzzer.Greybox.Fuzz.{
  Grey, Fuzzing, mutated, scheduled, picked, pick_input, add_to_corpus, fst_opinion, snd_opinion,
  compared, fuzz_one, run_greybox,
}

All-get_elem? :
    {A : Type 0} (P : A → Type 0) (xs : List A) (i : ℕ) (x : A)
    → All P xs
    → get_elem? xs i ≡ some x
    → P x
All-get_elem? P [] i x h e = absurd (cc)
All-get_elem? P (y ∷ ys) zero x h e = let same : y ≡ x = ground (arith, e) in subst P same h.0
All-get_elem? P (y ∷ ys) (suc i) x h e = All-get_elem? P ys i x h.1 e

All-update_at :
    {A : Type 0} (P : A → Type 0) (xs : List A) (i : ℕ) (f : A → A)
    → ((x : A) → P x → P (f x))
    → All P xs
    → All P (update_at xs i f)
All-update_at P [] i f g h = tt
All-update_at P (x ∷ xs) zero f g h = (g x h.0, h.1)
All-update_at P (x ∷ xs) (suc i) f g h = (h.0, All-update_at P xs i f g h.1)

-- There is a seed, and neither the seeds nor the tests of the given corpus are longer than `l`.
pub record Short {R : Type 0} (l : ℕ) (g : Grey R) : Type 0 where
  pub initial : All (λ w. length w ≤ l) g.initial_corpus
  pub seeds : All (λ (seed : Seed). length seed.workload ≤ l) g.corpus
  pub some_seed : 0 < length g.corpus

-- A test that is made is not longer than `l` either.
record Made {W C R : Type 0} (l : ℕ) (input : Workload) (s : Fuzzing W C R) : Type 0 where
  short : length input ≤ l
  kept : Short l s.extra

module _ {W C R : Type 0} (random : Random R) (laws : RandomLaws random)
    (depth steps retries attempts : ℕ) (settings : Settings) (l : ℕ)
    (room : settings.max_length ≤ l) where
  MadeOf : Option Workload × Fuzzing W C R → Type 0
  MadeOf (none, s) = Unit
  MadeOf (some input, s) = Made l input s

  mutated-Made :
      (o : Option Workload) (s : Fuzzing W C R)
      → ((w : Workload) → o ≡ some w → length w ≤ l)
      → Short l s.extra
      → MadeOf (mutated random depth steps retries attempts settings o s)
  unfolding MadeOf
  mutated-Made none s h k = tt
  mutated-Made (some seed) s h k =
      go (mutate random depth steps retries settings attempts s.extra.rng seed)
        (length-mutate random laws depth steps retries settings attempts s.extra.rng seed)
    where
      go :
          (r : Result Workload × R)
          → ((w : Workload) → r.0 ≡ ok w → length w ≤ max (length seed) settings.max_length)
          → MadeOf (answer r.0, record s { extra = record s.extra { rng = r.1 } })
      go (ok w, rng) f = record {
        short = omega (arith, f w refl, h seed refl);
        kept = record { initial = k.initial; seeds = k.seeds; some_seed = k.some_seed };
      }
      go (err e, rng) f = tt
      go (panic, rng) f = tt
      go (overflow, rng) f = tt

  chosen-Made :
      (o : Option Seed) (i : ℕ) (s : Fuzzing W C R)
      → get_elem? s.extra.corpus i ≡ o
      → Short l s.extra
      → MadeOf (
          scheduled random depth steps retries attempts settings (choose_this o i s.extra.corpus) s)
  unfolding add64
  chosen-Made none i s e k =
      mutated-Made none _ (λ w f. cc)
        (record { initial = k.initial; seeds = k.seeds; some_seed = k.some_seed })
  chosen-Made (some seed) i s e k =
      mutated-Made (some seed.workload) _
        (λ w f.
          let same : seed.workload ≡ w = ground (arith, f) in
          subst (λ (v : Workload). length v ≤ l) same
            (All-get_elem? (λ (x : Seed). length x.workload ≤ l) s.extra.corpus i seed k.seeds e))
        (record {
          initial = k.initial;
          seeds =
              All-update_at (λ (x : Seed). length x.workload ≤ l) s.extra.corpus i _ (λ x p. p)
                k.seeds;
          some_seed = omega (
            arith,
            k.some_seed,
            length-update_at s.extra.corpus i
                (λ (x : Seed). record x { times_choosen = add64 x.times_choosen 1 }),
          );
        })

  picked-Made :
      (o : Option Workload) (s : Fuzzing W C R)
      → get_elem? s.extra.initial_corpus s.extra.next_initial ≡ o
      → Short l s.extra
      → MadeOf (picked random depth steps retries attempts settings o s)
  unfolding MadeOf Coverage.choose
  picked-Made (some w) s e k = record {
    short = All-get_elem? (λ (v : Workload). length v ≤ l) s.extra.initial_corpus _ w k.initial e;
    kept = record { initial = k.initial; seeds = k.seeds; some_seed = k.some_seed };
  }
  picked-Made none s e k = chosen-Made _ _ s refl k

  pick_input-Made :
      Ensures
        (Extra {W = W} {C = C} {Msg = GreyBoxStats} (Short l))
        (pick_input random depth steps retries attempts settings)
        (Made l)
  unfolding pick_input MadeOf
  pick_input-Made = record {
    at = λ s s' input p e.
        subst MadeOf e
          (picked-Made (get_elem? s.extra.initial_corpus s.extra.next_initial) s refl p.holds);
  }

-- The coverage and the statistics do not matter for the seeds.
module _ {W C R : Type 0} (world : World W C)
    (save_input : Workload → DiffCompleted C → Step W (Unit {0}))
    (fst_covered snd_covered : W → C → Option CoverageMap) (save_corpus : Bool) (l : ℕ) where
  compared-Short :
      (input : Workload) (diff : DiffCompleted C)
      → length input ≤ l
      → Ensures
          (Extra (Short l))
          (compared {R = R} world save_input fst_covered snd_covered save_corpus input diff)
          (λ _. Extra (Short l))
  unfolding compared fst_opinion snd_opinion add_to_corpus new_seed
  compared-Short input diff short =
      Ensures-bind _ (λ _. Extra (Short l)) _ _ _ (same_corpus _ (λ s. (_, refl, refl, refl)))
        λ fst.
          Ensures-bind _ (λ _. Extra (Short l)) _ _ _ (same_corpus _ (λ s. (_, refl, refl, refl)))
            λ snd.
              Ensures-if _ _ (is_interesting fst || is_interesting snd) _ _
                (Ensures-bind _ (λ _. Extra (Short l)) _ _ _
                  (Ensures-modify _ _ _ λ s p. record {
                    holds = record {
                      initial = p.holds.initial;
                      seeds = All-append _ s.extra.corpus _ p.holds.seeds (short, tt);
                      some_seed = omega (
                        arith,
                        p.holds.some_seed,
                        length-append s.extra.corpus
                            (new_seed input (coverage fst) (coverage snd) ∷ []),
                      );
                    };
                  })
                  λ _.
                    Ensures-bind _ (λ _. Extra (Short l)) _ _ _ (send_stats-Extra world _ _ false)
                      λ _.
                        Ensures-if _ _ save_corpus _ _ (on_world-Extra _ (save_input input diff))
                          (Ensures-pure _ _ _ (λ s p. p)))
                (Ensures-pure _ _ _ (λ s p. p))
    where
      same_corpus :
          {A : Type 0} (m : Step (Fuzzing W C R) A)
          → ((s : Fuzzing W C R)
              → (g : Grey R) × ((m s).1 ≡ record s { extra = g })
                × (g.initial_corpus ≡ s.extra.initial_corpus)
                × (g.corpus ≡ s.extra.corpus))
          → Ensures (Extra (Short l)) m (λ _. Extra (Short l))
      same_corpus m h = record {
        at = λ s s' a p e.
            let (g, changed, initial, corpus) = h s in
            subst (Extra (Short l)) (ap (λ q. q.1) e) (
              rw changed (record {
                holds = record {
                  initial = rw initial p.holds.initial;
                  seeds = rw corpus p.holds.seeds;
                  some_seed = rw corpus p.holds.some_seed;
                };
              }));
      }

  -- If no test of the given corpus and no seed is longer than `l`, and the longest test that mutation
  -- may make is not either, then after a run of the grey-box fuzzer over `count` tests that ends without
  -- an error this still holds, and there is still a seed to choose.
  pub run_greybox-Short :
      (random : Random R)
      → RandomLaws random
      → (depth steps retries attempts : ℕ) (settings : Settings) (count : ℕ) (s s' : Fuzzing W C R)
      → settings.max_length ≤ l
      → Short l s.extra
      → run_greybox world save_input fst_covered snd_covered save_corpus random depth steps retries
          attempts settings count s
        ≡ (some tt, s')
      → Short l s'.extra
  unfolding run_greybox fuzz_one
  run_greybox-Short random laws depth steps retries attempts settings count s s' room p e =
      ((run-Extra world _ (Short l) count _ (
          Ensures-bind _ (λ input s. Made l input s) _ _ _
            (pick_input-Made random laws depth steps retries attempts settings l room)
            λ input. record {
              at = λ t t' u m f.
                  (fuzz_input-Extra world _ (Short l) _ input
                      (λ diff. compared-Short input diff m.short)).at
                    t t' u (record { holds = m.kept }) f;
            })).at
        s s' tt (record { holds = p }) e).holds
