-- ===== src/Mutator.antt =====
-- diffuzzer/src/abstract_fs/mutator.rs: a workload with one operation taken out or put in, as far as
-- it still runs on the abstract file system.
pub mod Removal
pub mod Kind
pub mod Insertion
pub mod Names
use diffuzzer.Prelude.{
  ℕ, zero, suc, Bool, true, false, ◌||◌, Option, none, some, List, [], ◌∷◌, ◌++◌, if◌then◌else◌,
  ltb, leb, length, take, drop,
}
use diffuzzer.PathName.{PathName, Name, text_eq, segments}
use diffuzzer.Text.{to_string}
use diffuzzer.Operation.{Operation, OperationWeights, Workload}
use diffuzzer.Fs.State.{AbstractFs, Result, ok, err, panic, overflow, new}
use diffuzzer.Fs.Replay.{replay}
use diffuzzer.Generator.Draws.{Random, Gen}
use diffuzzer.Generator.{append_one}

-- `Vec::remove` at an index in range
abbrev pub without : List Operation → ℕ → List Operation
without [] i = []
without (op ∷ ops) ℕ.zero = ops
without (op ∷ ops) (ℕ.suc i) = op ∷ without ops i

abbrev pub recorded : Result (Unit {0}) × AbstractFs → Result (Option Workload)
recorded (ok u, fs) = ok (some fs.recording)
recorded (err e, fs) = ok none
recorded (panic, fs) = panic
recorded (overflow, fs) = overflow

-- `Vec::remove` panics at an index out of range.
unfoldable pub remove : ℕ → Workload → ℕ → Result (Option Workload)
remove fuel workload index =
    if ltb index (length workload)
    then recorded (replay fuel (without workload index) new)
    else panic

-- The names in the paths of an operation, as `insert` collects them: not those of a removal.
unfoldable pub names_of : Operation → List Name
names_of (Operation.mk_dir path mode) = segments path
names_of (Operation.create path mode) = segments path
names_of (Operation.remove path) = []
names_of (Operation.hardlink old_path new_path) = segments old_path ++ segments new_path
names_of (Operation.rename old_path new_path) = segments old_path ++ segments new_path
names_of (Operation.open_file path des) = segments path
names_of (Operation.close des) = []
names_of (Operation.read des size) = []
names_of (Operation.write des src_offset size) = []
names_of (Operation.fsync des) = []
names_of (Operation.symlink target linkpath) = segments target ++ segments linkpath

unfoldable pub used_names : Workload → List Name
used_names [] = []
used_names (op ∷ ops) = names_of op ++ used_names ops

unfoldable pub is_used : List Name → Name → Bool
is_used [] name = false
is_used (n ∷ names) name = text_eq n name || is_used names name

-- The loop of `gen_name`: the first number from `name_idx` on that is not a used name.
unfoldable pub unused_name : ℕ → List Name → ℕ → Result (Name × ℕ)
unused_name zero used name_idx = overflow
unused_name (suc fuel) used name_idx =
    let later = unused_name fuel used (suc name_idx) in
    if is_used used (to_string name_idx) then later else ok (to_string name_idx, suc name_idx)

-- More numbers than there are used names.
unfoldable pub gen_name : List Name → ℕ → Result (Name × ℕ)
gen_name used name_idx = unused_name (suc (length used)) used name_idx

module _ {R : Type 0} (random : Random R) (depth steps retries : ℕ) where
  -- The rest of the workload on the file system that the new operation leaves.
  abbrev pub insert_after : Workload → Result (Unit {0}) × Gen R ℕ → Result (Option Workload) × R
  insert_after rest (ok u, s) = (recorded (replay depth rest s.fs), s.rng)
  insert_after rest (err e, s) = (err e, s.rng)
  insert_after rest (panic, s) = (panic, s.rng)
  insert_after rest (overflow, s) = (overflow, s.rng)

  abbrev pub insert_on :
      Workload
      → Workload
      → OperationWeights
      → R
      → Result (Unit {0}) × AbstractFs
      → Result (Option Workload) × R
  insert_on workload rest weights rng (ok u, fs) = insert_after rest (
      append_one random (gen_name (used_names workload)) depth retries steps weights
        (record { rng = rng; names = 0; fs = fs }))
  insert_on workload rest weights rng (err e, fs) = (ok none, rng)
  insert_on workload rest weights rng (panic, fs) = (panic, rng)
  insert_on workload rest weights rng (overflow, fs) = (overflow, rng)

  -- `split_at` panics at an index past the end.
  unfoldable pub insert : R → Workload → ℕ → OperationWeights → Result (Option Workload) × R
  insert rng workload index weights =
      if leb index (length workload)
      then (insert_on workload (drop index workload) weights rng
          (replay depth (take index workload) new))
      else (panic, rng)
