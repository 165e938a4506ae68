-- ===== src/Mutator/Removal.antt =====
-- What `remove` gives back.
use diffuzzer.Prelude.{
  ℕ, ◌<◌, ◌≡◌, ◌≢◌, refl, true, some, map, ltb, lt→ltb, length, arith, inl, inr, Bool-cases, subst,
}
use diffuzzer.Operation.{Workload, kind_of}
use diffuzzer.Fs.State.{AbstractFs, Result, ok, err, panic, overflow, new}
use diffuzzer.Fs.Replay.{replay}
use diffuzzer.Fs.Recorded.{replay-recording}
use diffuzzer.Fs.Valid.{new-IsValid}
use diffuzzer.Fs.Steps.{Keeps, FineAlong, replay-Keeps}
use diffuzzer.Mutator.{without, recorded, remove}

-- What is known of a workload that `remove` returns: it runs to its end on the empty file system,
-- where it is recorded as it is, with the kinds of the operations that were left.
pub record Reduced (fuel : ℕ) (workload : Workload) (index : ℕ) (reduced : Workload) : Type 0 where
  pub final : AbstractFs
  pub runs : replay fuel reduced new ≡ (ok tt, final)
  pub recording : final.recording ≡ reduced
  pub kinds : map kind_of reduced ≡ map kind_of (without workload index)

pub recorded-some :
    (r : Result (Unit {0}) × AbstractFs) (w : Workload)
    → recorded r ≡ ok (some w)
    → (s : AbstractFs) × ((r ≡ (ok tt, s)) × (s.recording ≡ w))
recorded-some (ok u, s) w h = (s, (refl, ground arith))
recorded-some (err e, s) w h = absurd (ground arith)
recorded-some (panic, s) w h = absurd (cc)
recorded-some (overflow, s) w h = absurd (cc)

-- A workload that `remove` returns runs to its end on the empty file system, is what that run
-- records, and has the kinds of the operations of the given one without the one at the index.
pub remove-Reduced :
    (fuel : ℕ) (workload : Workload) (index : ℕ) (reduced : Workload)
    → remove fuel workload index ≡ ok (some reduced)
    → Reduced fuel workload index reduced
unfolding remove
remove-Reduced fuel workload index reduced h =
    let found : recorded (replay fuel (without workload index) new) ≡ ok (some reduced) =
      elim (Bool-cases (ltb index (length workload))) [
        | inl e ↦ ground (arith, h)
        | inr e ↦ absurd (ground (arith, h))
      ] in
    let (s, (run, rec)) = recorded-some (replay fuel (without workload index) new) reduced found in
    let both = replay-recording fuel (without workload index) s run in
    record { final = s; runs = rw (← rec) both.0; recording = rec; kinds = rw (← rec) both.1 }

recorded_panic : (r : Result (Unit {0})) (s : AbstractFs) → recorded (r, s) ≡ panic → r ≡ panic
recorded_panic (ok u) s h = absurd (cc)
recorded_panic (err e) s h = absurd (cc)
recorded_panic panic s h = refl
recorded_panic overflow s h = absurd (cc)

-- Removal at an index of the workload does not panic, if each operation that is left is `Fine` where
-- the replay gets to it.
pub remove-no_panic :
    (fuel : ℕ) (workload : Workload) (index : ℕ)
    → index < length workload
    → FineAlong fuel (without workload index) new
    → remove fuel workload index ≢ panic
unfolding remove
remove-no_panic fuel workload index lt h e =
    let run = replay fuel (without workload index) new in
    let inside : ltb index (length workload) ≡ true = lt→ltb index (length workload) lt in
    let stopped : recorded run ≡ panic = ground (arith, e, inside) in
    subst (λ r. Keeps (r, run.1)) (recorded_panic run.0 run.1 stopped)
      (replay-Keeps fuel (without workload index) new new-IsValid h)
