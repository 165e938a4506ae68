-- ===== src/Runner/Interesting.antt =====
-- When a run on two file systems counts as one with a difference.
use diffuzzer.Prelude.{
  ℕ, ◌≡◌, ◌↔◌, refl, subst, Bool, true, false, Option, List, [], ◌∷◌, if◌then◌else◌, arith,
  is_empty,
}
use diffuzzer.Dash.{Written}
use diffuzzer.Trace
use diffuzzer.Trace.{Trace}
use diffuzzer.Trace.Differences.{diff_iff}
use diffuzzer.Outcome.{DiffCompleted, any_interesting, dash_interesting, trace_interesting}
use diffuzzer.Runner.{
  DashObserver, is_interesting, dash_diff, Result, ok, err, panic, no_fuel, of_outcome, ◌>>=◌,
  parse_trace, diff,
}

>>=-ok :
    {A B : Type 0} (m : Result A) (f : A → Result B) (b : B)
    → (m >>= f) ≡ ok b
    → (a : A) × ((m ≡ ok a) × (f a ≡ ok b))
unfolding ◌>>=◌
>>=-ok (ok a) f b h = (a, (refl, h))
>>=-ok err f b h = absurd (cc)
>>=-ok panic f b h = absurd (cc)
>>=-ok no_fuel f b h = absurd (cc)

is_empty_iff : {A : Type 0} (xs : List A) → (is_empty xs ≡ true) ↔ (xs ≡ [])
is_empty_iff [] = (λ _. refl, λ _. refl)
is_empty_iff (x ∷ xs) = (λ e. absurd (cc), λ e. absurd (cc))

-- The traces of the result are those of the two runs, and its file differences are those of the
-- dash objective, or none if that sees no difference.
pub record Compared {C : Type 0} (trace_file : C → Option (List ℕ)) (finish : List Written → ℕ)
    (enabled : Bool) (fst_dash snd_dash : DashObserver) (c c' : C) (d : DiffCompleted C)
    : Type 0 where
  pub fst_parsed : parse_trace (trace_file c) ≡ ok d.fst_trace
  pub snd_parsed : parse_trace (trace_file c') ≡ ok d.snd_trace
  pub files :
      (if is_interesting enabled fst_dash snd_dash
        then of_outcome (dash_diff finish fst_dash snd_dash)
        else ok [])
      ≡ ok d.dash_diff
  pub dull : (any_interesting d ≡ false) ↔ ((d.dash_diff ≡ []) × (d.fst_trace ≡ d.snd_trace))

dull_iff :
    {C : Type 0} (d : DiffCompleted C)
    → d.trace_diff ≡ Trace.diff d.fst_trace d.snd_trace
    → (any_interesting d ≡ false) ↔ ((d.dash_diff ≡ []) × (d.fst_trace ≡ d.snd_trace))
unfolding any_interesting dash_interesting trace_interesting
dull_iff d e = ground (
  arith,
  e,
  is_empty_iff d.dash_diff,
  is_empty_iff d.trace_diff,
  diff_iff d.fst_trace d.snd_trace,
)

-- When the comparison of two runs returns, it holds the traces of both runs and the differences of
-- their files, and it is of no interest exactly when there are none of these and the traces are
-- equal.
pub diff-Compared :
    {C : Type 0} (trace_file : C → Option (List ℕ)) (finish : List Written → ℕ) (enabled : Bool)
    (fst_dash snd_dash : DashObserver) (c c' : C) (d : DiffCompleted C)
    → diff trace_file finish enabled fst_dash snd_dash c c' ≡ ok d
    → Compared trace_file finish enabled fst_dash snd_dash c c' d
unfolding diff
diff-Compared trace_file finish enabled fst_dash snd_dash c c' d h =
    let (t, (et, h1)) = >>=-ok _ _ d h in
    let (t', (et', h2)) = >>=-ok _ _ d h1 in
    let (files, (ef, h3)) = >>=-ok _ _ d h2 in
    subst (Compared trace_file finish enabled fst_dash snd_dash c c') (ok_inj _ d h3)
      record { fst_parsed = et; snd_parsed = et'; files = ef; dull = dull_iff _ refl }
  where
    ok_inj : {A : Type 0} (a b : A) → ok a ≡ ok b → a ≡ b
    ok_inj a b e = ground arith
