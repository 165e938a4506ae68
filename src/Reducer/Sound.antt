-- ===== src/Reducer/Sound.antt =====
-- What a reduction reports, and the test it ends with.
use diffuzzer.Prelude.{
  ℕ, zero, suc, ◌≡◌, refl, subst, Bool, true, false, Option, none, some, [], ◌∷◌, length, ◌⊎◌, inl,
  inr, Bool-cases, All, All-append,
}
use diffuzzer.Operation.{Workload}
use diffuzzer.Fs.State.{AbstractFs, Result, ok, err, panic, overflow, new}
use diffuzzer.Fs.Replay.{replay}
use diffuzzer.Mutator.{remove}
use diffuzzer.Mutator.Removal.{remove-Reduced}
use diffuzzer.Outcome.{
  DiffCompleted, DiffOutcome, diff_completed, first_timed_out, second_timed_out, first_panicked,
  second_panicked, any_interesting,
}
use diffuzzer.Reducer.{
  same_diff, Report, reduced, variation, crash, Progress, note, Reduction, finished, failed,
  panicked, no_fuel, and_then, save, judge, try_remove, reduce_from, reduce_by_diff,
}

-- The workload runs to its end on the empty file system, which records it as it is.
abbrev pub Runs : ℕ → Workload → Type 0
Runs fuel w = (s : AbstractFs) × ((replay fuel w new ≡ (ok tt, s)) × (s.recording ≡ w))

module _ {C : Type 0} (run_harness : Workload → Option (DiffOutcome C)) (saves : Report → Bool)
    (original : DiffCompleted C) (fuel : ℕ) where
  -- The run of a workload shows a difference, and whether it is the original one.
  abbrev pub Shows : Bool → Workload → Type 0
  Shows b w =
      (d : DiffCompleted C) × ((run_harness w ≡ some (diff_completed d))
        × ((any_interesting d ≡ true) × (same_diff original d ≡ b)))

  abbrev pub IsCrash : DiffOutcome C → Type 0
  IsCrash (diff_completed d) = ⊥
  IsCrash (first_timed_out name t) = Unit
  IsCrash (second_timed_out name t) = Unit
  IsCrash (first_panicked name) = Unit
  IsCrash (second_panicked name) = Unit

  -- What a report claims.
  abbrev pub Justified : Report → Type 0
  Justified (reduced w) = Runs fuel w × Shows true w
  Justified (variation i w) = Runs fuel w × Shows false w
  Justified (crash i w) =
      Runs fuel w × ((o : DiffOutcome C) × ((run_harness w ≡ some o) × IsCrash o))

  -- The reports so far are justified, and the test at hand is the given one or a reduced one.
  pub record IsSound (input : Workload) (p : Progress) : Type 0 where
    pub reports : All Justified p.reports
    pub bugcase : (p.bugcase ≡ input) ⊎ Justified (reduced p.bugcase)

  -- A reduction that finishes is sound.
  abbrev Sound : Workload → Reduction → Type 0
  Sound input (finished p) = IsSound input p
  Sound input failed = Unit
  Sound input panicked = Unit
  Sound input no_fuel = Unit

  noted :
      (input : Workload) (r : Report) (p : Progress)
      → Justified r
      → IsSound input p
      → IsSound input (note r p)
  noted input r p j h = record {
    reports = All-append _ p.reports (r ∷ []) h.reports (j, tt);
    bugcase = h.bugcase;
  }

  replaced :
      (input w : Workload) (p : Progress)
      → Justified (reduced w)
      → IsSound input p
      → IsSound input (note (reduced w) (record p { bugcase = w }))
  replaced input w p j h = record {
    reports = All-append _ p.reports (reduced w ∷ []) h.reports (j, tt);
    bugcase = inr j;
  }

  save-Sound :
      (input : Workload) (r : Report) (p : Progress)
      → IsSound input (note r p)
      → Sound input (save run_harness saves original r p)
  unfolding save
  save-Sound input r p h = elim (Bool-cases (saves r)) [
    | inl saved ↦ rw saved h
    | inr lost ↦ rw lost tt
  ]

  judge-Sound :
      (input : Workload) (i : ℕ) (w : Workload) (o : Option (DiffOutcome C)) (p : Progress)
      → run_harness w ≡ o
      → Runs fuel w
      → IsSound input p
      → Sound input (judge run_harness saves original i w o p)
  unfolding judge
  judge-Sound input i w none p e r h = tt
  judge-Sound input i w (some (diff_completed d)) p e r h = elim (Bool-cases (any_interesting d)) [
    | inr dull ↦ rw dull h
    | inl seen ↦ elim (Bool-cases (same_diff original d)) [
      | inl same ↦
          rw (seen, same)
            (save-Sound input (reduced w) (record p { bugcase = w })
              (replaced input w p (r, (d, (e, (seen, same)))) h))
      | inr other ↦
          rw (seen, other)
            (save-Sound input (variation i w) p
              (noted input (variation i w) p (r, (d, (e, (seen, other)))) h))
    ]
  ]
  judge-Sound input i w (some (first_timed_out n t)) p e r h =
      save-Sound input (crash i w) p
        (noted input (crash i w) p (r, (first_timed_out n t, (e, tt))) h)
  judge-Sound input i w (some (second_timed_out n t)) p e r h =
      save-Sound input (crash i w) p
        (noted input (crash i w) p (r, (second_timed_out n t, (e, tt))) h)
  judge-Sound input i w (some (first_panicked n)) p e r h =
      save-Sound input (crash i w) p (noted input (crash i w) p (r, (first_panicked n, (e, tt))) h)
  judge-Sound input i w (some (second_panicked n)) p e r h =
      save-Sound input (crash i w) p (noted input (crash i w) p (r, (second_panicked n, (e, tt))) h)

  try_remove-Sound :
      (input : Workload) (i : ℕ) (r : Result (Option Workload)) (p : Progress)
      → remove fuel p.bugcase i ≡ r
      → IsSound input p
      → Sound input (try_remove run_harness saves original i r p)
  unfolding try_remove
  try_remove-Sound input i (ok (some w)) p e h =
      let done = remove-Reduced fuel p.bugcase i w e in
      judge-Sound input i w (run_harness w) p refl (done.final, (done.runs, done.recording)) h
  try_remove-Sound input i (ok none) p e h = h
  try_remove-Sound input i (err x) p e h = h
  try_remove-Sound input i panic p e h = tt
  try_remove-Sound input i overflow p e h = tt

  and_then-Sound :
      (input : Workload) (r : Reduction) (k : Progress → Reduction)
      → Sound input r
      → ((p : Progress) → IsSound input p → Sound input (k p))
      → Sound input (and_then r k)
  and_then-Sound input (finished p) k h hk = hk p h
  and_then-Sound input failed k h hk = tt
  and_then-Sound input panicked k h hk = tt
  and_then-Sound input no_fuel k h hk = tt

  reduce_from-Sound :
      (input : Workload) (i : ℕ) (p : Progress)
      → IsSound input p
      → Sound input (reduce_from run_harness saves original fuel i p)
  unfolding reduce_from
  reduce_from-Sound input zero p h = try_remove-Sound input 0 _ p refl h
  reduce_from-Sound input (suc i) p h =
      and_then-Sound input _ _ (try_remove-Sound input (suc i) _ p refl h)
        λ q hq. reduce_from-Sound input i q hq

  Sound-start :
      (input : Workload) → Sound input (reduce_by_diff run_harness saves original fuel input)
  unfolding reduce_by_diff
  Sound-start [] = tt
  Sound-start (op ∷ ops) =
      reduce_from-Sound (op ∷ ops) (length ops) _ (record { reports = tt; bugcase = inl refl })

  -- When a reduction finishes, the test it ends with is the given one or a reduced one; each
  -- reduced test that it saved runs on the abstract file system and shows the original difference,
  -- each variation shows another difference, and each crash report is of a test that made a file
  -- system panic or time out.
  pub reduce_by_diff-IsSound :
      (input : Workload) (p : Progress)
      → reduce_by_diff run_harness saves original fuel input ≡ finished p
      → IsSound input p
  reduce_by_diff-IsSound input p e = subst (Sound input) e (Sound-start input)
