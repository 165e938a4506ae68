-- ===== src/Fs/Replay.antt =====
-- fs.rs, `replay`: the operations of a workload, in order, until one fails.
use diffuzzer.Prelude.{ℕ, [], ◌∷◌}
use diffuzzer.Operation.{Operation, Workload}
use diffuzzer.Fs.State.{Exec, pure, ◌>>=◌, ◌>>◌}
use diffuzzer.Fs.Ops

abbrev pub ignore {ℓ} : {A : Type ℓ} → Exec A → Exec (Unit {0})
ignore m = m >>= λ _. pure tt

-- The descriptor that an `open_file` names is not looked at: it is counted anew.
unfoldable pub step : ℕ → Operation → Exec (Unit {0})
step fuel (Operation.mk_dir path mode) = ignore (Ops.mkdir fuel path mode)
step fuel (Operation.create path mode) = ignore (Ops.create fuel path mode)
step fuel (Operation.remove path) = Ops.remove fuel path
step fuel (Operation.hardlink old_path new_path) = ignore (Ops.hardlink fuel old_path new_path)
step fuel (Operation.rename old_path new_path) = ignore (Ops.rename fuel old_path new_path)
step fuel (Operation.open_file path des) = ignore (Ops.open_file fuel path)
step fuel (Operation.close des) = Ops.close des
step fuel (Operation.read des size) = ignore (Ops.read des size)
step fuel (Operation.write des src_offset size) = Ops.write des src_offset size
step fuel (Operation.fsync des) = Ops.fsync des
step fuel (Operation.symlink target linkpath) = ignore (Ops.symlink fuel target linkpath)

unfoldable pub replay : ℕ → Workload → Exec (Unit {0})
replay fuel [] = pure tt
replay fuel (op ∷ ops) = do step fuel op; replay fuel ops
