-- ===== src/Mutator/Insertion.antt =====
-- What `insert` gives back.
use diffuzzer.Prelude.{
  ℕ, ◌≤◌, ◌≡◌, refl, sym, ap, ap₂, if◌then◌else◌, ◌∙◌, some, [], ◌∷◌, ◌++◌, map, leb, length, take,
  drop, arith, inl, inr, Bool-cases, subst, All, append-nil, append_assoc,
}
use mathlib.Core.List.{map-append}
use diffuzzer.Operation.{OperationWeights, Workload, kind_of}
use diffuzzer.Fs.State.{AbstractFs, Result, ok, err, panic, overflow, new}
use diffuzzer.Fs.Replay.{replay}
use diffuzzer.Fs.Recorded.{replay_adds}
use diffuzzer.Generator.Draws.{Random, RandomLaws, Gen}
use diffuzzer.Generator.{append_one}
use diffuzzer.Generator.Grown.{GrownBy, same, added}
use diffuzzer.Generator.Generated.{Drawn, append_one-GrownBy}
use diffuzzer.Mutator.{gen_name, used_names, insert_after, insert_on, insert}
use diffuzzer.Mutator.Removal.{recorded-some}

-- The kinds of the two parts of a workload, with at most one drawn operation in between.
pub record Between (before after : Workload) (weights : OperationWeights) (w : Workload)
    : Type 0 where
  pub middle : Workload
  pub short : length middle ≤ 1
  pub drawn : All (Drawn weights) middle
  pub kinds : map kind_of w ≡ map kind_of before ++ (map kind_of middle ++ map kind_of after)

grown_middle :
    (weights : OperationWeights) (w w' : Workload)
    → GrownBy (Drawn weights) w w'
    → (middle : Workload) × (length middle ≤ 1) × All (Drawn weights) middle × (w' ≡ w ++ middle)
grown_middle weights w w' (same e) = ([], omega arith, tt, e ∙ sym (append-nil w))
grown_middle weights w w' (added op p e) = (op ∷ [], omega arith, (p, tt), e)

module _ {R : Type 0} (random : Random R) (laws : RandomLaws random) (depth steps retries : ℕ) where
  insert_after-Between :
      (before rest : Workload) (weights : OperationWeights) (fs : AbstractFs)
      (r : Result (Unit {0})) (s : Gen R ℕ) (w : Workload)
      → map kind_of fs.recording ≡ map kind_of before
      → (r ≡ ok tt → GrownBy (Drawn weights) fs.recording s.fs.recording)
      → (insert_after random depth steps retries rest (r, s)).0 ≡ ok (some w)
      → Between before rest weights w
  insert_after-Between before rest weights fs (ok u) s w k g e =
      let (middle, short, drawn, grown) = grown_middle weights _ _ (g refl) in
      let (t, (run, rec)) = recorded-some (replay depth rest s.fs) w e in
      let replayed = replay_adds depth rest s.fs t run in
      record {
        middle = middle;
        short = short;
        drawn = drawn;
        kinds =
            ap (map kind_of) (
              sym rec
              ∙ replayed.added
              ∙ ap (λ v. v ++ replayed.suffix) grown
              ∙ append_assoc fs.recording middle replayed.suffix)
            ∙ map-append kind_of fs.recording (middle ++ replayed.suffix)
            ∙ ap₂ ◌++◌ k (
                map-append kind_of middle replayed.suffix
                ∙ ap (◌++◌ (map kind_of middle)) replayed.kinds);
      }
  insert_after-Between before rest weights fs (err x) s w k g e = absurd (cc)
  insert_after-Between before rest weights fs panic s w k g e = absurd (cc)
  insert_after-Between before rest weights fs overflow s w k g e = absurd (cc)

  insert_on-Between :
      (workload before rest : Workload) (weights : OperationWeights) (rng : R)
      (r : Result (Unit {0})) (fs : AbstractFs) (w : Workload)
      → replay depth before new ≡ (r, fs)
      → (insert_on random depth steps retries workload rest weights rng (r, fs)).0 ≡ ok (some w)
      → Between before rest weights w
  insert_on-Between workload before rest weights rng (ok u) fs w run e =
      let appended =
        append_one random (gen_name (used_names workload)) depth retries steps weights
          (record { rng = rng; names = 0; fs = fs }) in
      insert_after-Between before rest weights fs appended.0 appended.1 w
        (ap (map kind_of) (replay_adds depth before new fs run).added
          ∙ (replay_adds depth before new fs run).kinds)
        (λ returned.
          append_one-GrownBy random laws (gen_name (used_names workload)) depth retries steps
            weights _ appended.1 (ap (λ r. (r, appended.1)) returned))
        e
  insert_on-Between workload before rest weights rng (err x) fs w run e = absurd (ground arith)
  insert_on-Between workload before rest weights rng panic fs w run e = absurd (cc)
  insert_on-Between workload before rest weights rng overflow fs w run e = absurd (cc)

  -- A workload that `insert` returns has the kinds of the given one, in order, with at most one
  -- operation put in at the index, which has the kind made for a kind with a positive weight.
  pub insert-Between :
      (rng : R) (workload : Workload) (index : ℕ) (weights : OperationWeights) (w : Workload)
      → (insert random depth steps retries rng workload index weights).0 ≡ ok (some w)
      → Between (take index workload) (drop index workload) weights w
  unfolding insert
  insert-Between rng workload index weights w e = elim (Bool-cases (leb index (length workload))) [
    | inl inside ↦
        insert_on-Between workload (take index workload) (drop index workload) weights rng _ _ w
          refl
          (subst
            (λ b.
              (if b
                then (insert_on random depth steps retries workload (drop index workload) weights
                    rng (replay depth (take index workload) new))
                else (panic, rng)).0
              ≡ ok (some w))
            inside e)
    | inr outside ↦ absurd (ground (arith, e, outside))
  ]
