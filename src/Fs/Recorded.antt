-- ===== src/Fs/Recorded.antt =====
-- The recording that the operations of fs.rs make, and its replay.
use mathlib.Core.List.{map}
use diffuzzer.Prelude.{
  ℕ, ◌≡◌, refl, sym, ap, ap₂, ◌∙◌, List, [], ◌∷◌, ◌++◌, append-nil, append_assoc,
}
use diffuzzer.Operation.{Operation, Workload, kind_of}
use diffuzzer.Fs.State.{AbstractFs, ok, Exec, pure, ◌>>◌, new}
use diffuzzer.Node.{Dir, File, FileDescriptor, Symlink}
use diffuzzer.Flags.{Mode}
use diffuzzer.PathName.{PathName}
use diffuzzer.Fs.Ops
use diffuzzer.Fs.Replay.{step, replay, ignore}
use diffuzzer.Fs.Recording.{
  Silent, Records, >>=-eq-ok, Silent-pure, Silent-modify, Records-raise, Records-if, Records-bind,
  Records-then, Records-record_op, silent_rules,
}

pub Silent-parent_of : (fuel : ℕ) (path : List ℕ) → Silent (Ops.parent_of fuel path)
unfolding Ops.parent_of
Silent-parent_of fuel path = search silent_rules

pub Silent-name_exists : (idx : ℕ) (name : List ℕ) → Silent (Ops.name_exists idx name)
unfolding Ops.name_exists
Silent-name_exists idx name = search silent_rules

Silent-opened : (des : ℕ) → Silent (Ops.opened des)
unfolding Ops.opened
Silent-opened des = search silent_rules

Silent-push_dir : (x : Dir) → Silent (Ops.push_dir x)
unfolding Ops.push_dir
Silent-push_dir x = Silent-modify _ (λ s. refl)

Silent-push_file : (x : File) → Silent (Ops.push_file x)
unfolding Ops.push_file
Silent-push_file x = Silent-modify _ (λ s. refl)

Silent-push_symlink : (x : Symlink) → Silent (Ops.push_symlink x)
unfolding Ops.push_symlink
Silent-push_symlink x = Silent-modify _ (λ s. refl)

Silent-push_descriptor : (x : FileDescriptor) → Silent (Ops.push_descriptor x)
unfolding Ops.push_descriptor
Silent-push_descriptor x = Silent-modify _ (λ s. refl)

ruleset op_rules = (
  silent_rules, Silent-parent_of, Silent-name_exists, Silent-opened, Silent-push_dir,
  Silent-push_file, Silent-push_symlink, Silent-push_descriptor, Records-raise, Records-if,
  Records-bind, Records-then, Records-record_op,
)

module _ (P : Operation → Type 0) (fuel : ℕ) where
  Records-mkdir :
      (path : PathName) (mode : Mode)
      → P (Operation.mk_dir path mode)
      → Records P (Ops.mkdir fuel path mode)
  unfolding Ops.mkdir
  Records-mkdir path mode p = search op_rules depth 12

  Records-create :
      (path : PathName) (mode : Mode)
      → P (Operation.create path mode)
      → Records P (Ops.create fuel path mode)
  unfolding Ops.create
  Records-create path mode p = search op_rules depth 12

  Records-remove : (path : PathName) → P (Operation.remove path) → Records P (Ops.remove fuel path)
  unfolding Ops.remove
  Records-remove path p = search op_rules depth 12

  Records-hardlink :
      (old new : PathName) → P (Operation.hardlink old new) → Records P (Ops.hardlink fuel old new)
  unfolding Ops.hardlink
  Records-hardlink old new p = search op_rules depth 12

  Records-symlink :
      (target path : PathName)
      → P (Operation.symlink target path)
      → Records P (Ops.symlink fuel target path)
  unfolding Ops.symlink
  Records-symlink target path p = search op_rules depth 12

  Records-rename :
      (old new : PathName) → P (Operation.rename old new) → Records P (Ops.rename fuel old new)
  unfolding Ops.rename
  Records-rename old new p = search op_rules depth 12

  Records-open_file :
      (path : PathName)
      → ((des : ℕ) → P (Operation.open_file path des))
      → Records P (Ops.open_file fuel path)
  unfolding Ops.open_file
  Records-open_file path p = search op_rules depth 12

module _ (P : Operation → Type 0) where
  Records-close : (des : ℕ) → P (Operation.close des) → Records P (Ops.close des)
  unfolding Ops.close
  Records-close des p = search op_rules depth 12

  Records-read : (des n : ℕ) → P (Operation.read des n) → Records P (Ops.read des n)
  unfolding Ops.read
  Records-read des n p = search op_rules depth 12

  Records-write : (des src n : ℕ) → P (Operation.write des src n) → Records P (Ops.write des src n)
  unfolding Ops.write
  Records-write des src n p = search op_rules depth 12

  Records-fsync : (des : ℕ) → P (Operation.fsync des) → Records P (Ops.fsync des)
  unfolding Ops.fsync
  Records-fsync des p = search op_rules depth 12

-- What `P` says of the recorded operation in place of the one that was asked for.
pub record Same (fuel : ℕ) (op op' : Operation) : Type 0 where
  pub kind : kind_of op' ≡ kind_of op
  pub steps : step fuel op' ≡ step fuel op

Same-refl : (fuel : ℕ) (op : Operation) → Same fuel op op
Same-refl fuel op = record { kind = refl; steps = refl }

-- The descriptor that an open names makes no difference.
Same-open :
    (fuel : ℕ) (path : PathName) (des d : ℕ)
    → Same fuel (Operation.open_file path des) (Operation.open_file path d)
unfolding step kind_of
Same-open fuel path des d = record { kind = refl; steps = refl }

Records-ignore {ℓ} :
    {A : Type ℓ} (P : Operation → Type 0) (m : Exec A) → Records P m → Records P (ignore m)
Records-ignore P m h = Records-then P m _ h (λ _. Silent-pure tt)

pub step-Records : (fuel : ℕ) (op : Operation) → Records (Same fuel op) (step fuel op)
unfolding step
step-Records fuel (Operation.mk_dir path mode) =
    Records-ignore _ _ (Records-mkdir _ fuel path mode (Same-refl fuel _))
step-Records fuel (Operation.create path mode) =
    Records-ignore _ _ (Records-create _ fuel path mode (Same-refl fuel _))
step-Records fuel (Operation.remove path) = Records-remove _ fuel path (Same-refl fuel _)
step-Records fuel (Operation.hardlink old new_path) =
    Records-ignore _ _ (Records-hardlink _ fuel old new_path (Same-refl fuel _))
step-Records fuel (Operation.rename old new_path) =
    Records-ignore _ _ (Records-rename _ fuel old new_path (Same-refl fuel _))
step-Records fuel (Operation.open_file path des) =
    Records-ignore _ _ (Records-open_file _ fuel path (Same-open fuel path des))
step-Records fuel (Operation.close des) = Records-close _ des (Same-refl fuel _)
step-Records fuel (Operation.read des n) =
    Records-ignore _ _ (Records-read _ des n (Same-refl fuel _))
step-Records fuel (Operation.write des src n) = Records-write _ des src n (Same-refl fuel _)
step-Records fuel (Operation.fsync des) = Records-fsync _ des (Same-refl fuel _)
step-Records fuel (Operation.symlink target path) =
    Records-ignore _ _ (Records-symlink _ fuel target path (Same-refl fuel _))

-- The suffix that a successful replay of `ops` adds to the recording.
pub record Replayed (fuel : ℕ) (ops : Workload) (s s' : AbstractFs) : Type 0 where
  pub suffix : Workload
  pub added : s'.recording ≡ s.recording ++ suffix
  pub kinds : map kind_of suffix ≡ map kind_of ops
  pub again : replay fuel suffix ≡ replay fuel ops

pub replay_adds :
    (fuel : ℕ) (ops : Workload) (s s' : AbstractFs)
    → replay fuel ops s ≡ (ok tt, s')
    → Replayed fuel ops s s'
unfolding replay pure
replay_adds fuel [] s s' h = record {
  suffix = [];
  added = ap (λ q. q.1.recording) (sym h) ∙ sym (append-nil s.recording);
  kinds = refl;
  again = refl;
}
replay_adds fuel (op ∷ ops) s s' h =
    let (a, t, em, ef) = >>=-eq-ok (step fuel op) (λ _. replay fuel ops) s s' tt h in
    let (op', same, e) = (step-Records fuel op).at s t a em in
    let rest = replay_adds fuel ops t s' ef in
    record {
      suffix = op' ∷ rest.suffix;
      added =
          rest.added
          ∙ ap (λ r. r ++ rest.suffix) e
          ∙ append_assoc s.recording (op' ∷ []) rest.suffix;
      kinds = ap₂ ◌∷◌ same.kind rest.kinds;
      again = ap₂ (λ m n. m >> n) same.steps rest.again;
    }

-- If a workload replays on the empty file system, then so does what it records, with the same
-- outcome, and the recording has the same kinds of operations in the same order.
pub replay-recording :
    (fuel : ℕ) (ops : Workload) (s : AbstractFs)
    → replay fuel ops new ≡ (ok tt, s)
    → (replay fuel s.recording new ≡ (ok tt, s)) × (map kind_of s.recording ≡ map kind_of ops)
replay-recording fuel ops s h =
    let r = replay_adds fuel ops new s h in
    (
      ap (λ w. replay fuel w new) r.added ∙ ap (λ m. m new) r.again ∙ h,
      ap (map kind_of) r.added ∙ r.kinds,
    )
