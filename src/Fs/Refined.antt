-- ===== src/Fs/Refined.antt =====
-- The operations of fs.rs and what they mean for the map from directories and names to nodes.
use diffuzzer.Prelude.{ℕ, ◌≡◌, refl}
use diffuzzer.PathName.{PathName, Name}
use diffuzzer.Operation.{Operation}
use diffuzzer.Fs.State.{AbstractFs, ok, Exec}
use diffuzzer.Fs.Ops
use diffuzzer.Fs.Replay.{step, ignore}
use diffuzzer.Fs.View.{entry, Effect}
use diffuzzer.Fs.Yields.{Yields, Yields-mono, Shows}
use diffuzzer.Fs.Still.{Still, still_rules}
use diffuzzer.Fs.Renamed.{rename-Moved}
use diffuzzer.Fs.Linked.{
  shows_entry, ignored, mkdir-Linked, create-Linked, symlink-Linked, hardlink-Linked,
  remove-Unlinked,
}

still :
    (s : AbstractFs) (m : Exec (Unit {0}))
    → Still m
    → Yields (λ t. t ≡ s) m (λ _ t. (j : ℕ) (n : Name) → entry t j n ≡ entry s j n)
still s m h =
    Yields-mono (Shows (entry s)) _ _ _ _ (shows_entry s) (λ _ t shown. shown.same)
      (h.keeps (entry s))

Still-step_open : (fuel : ℕ) (path : PathName) → Still (ignore (Ops.open_file fuel path))
unfolding Ops.open_file
Still-step_open fuel path = search still_rules depth 12

Still-close : (des : ℕ) → Still (Ops.close des)
unfolding Ops.close
Still-close des = search still_rules depth 12

Still-step_read : (des size : ℕ) → Still (ignore (Ops.read des size))
unfolding Ops.read
Still-step_read des size = search still_rules depth 12

Still-write : (des src_offset size : ℕ) → Still (Ops.write des src_offset size)
unfolding Ops.write
Still-write des src_offset size = search still_rules depth 12

Still-fsync : (des : ℕ) → Still (Ops.fsync des)
unfolding Ops.fsync
Still-fsync des = search still_rules depth 12

step-Yields :
    (fuel : ℕ) (op : Operation) (s : AbstractFs)
    → Yields (λ t. t ≡ s) (step fuel op) (λ _ t. Effect fuel op s (entry t))
unfolding step
step-Yields fuel (Operation.mk_dir path mode) s = ignored s _ _ (mkdir-Linked fuel s path mode)
step-Yields fuel (Operation.create path mode) s = ignored s _ _ (create-Linked fuel s path mode)
step-Yields fuel (Operation.remove path) s = remove-Unlinked fuel s path
step-Yields fuel (Operation.hardlink old_path new_path) s =
    ignored s _ _ (hardlink-Linked fuel s old_path new_path)
step-Yields fuel (Operation.rename old_path new_path) s =
    ignored s _ _ (rename-Moved fuel s old_path new_path)
step-Yields fuel (Operation.open_file path des) s = still s _ (Still-step_open fuel path)
step-Yields fuel (Operation.close des) s = still s _ (Still-close des)
step-Yields fuel (Operation.read des size) s = still s _ (Still-step_read des size)
step-Yields fuel (Operation.write des src_offset size) s =
    still s _ (Still-write des src_offset size)
step-Yields fuel (Operation.fsync des) s = still s _ (Still-fsync des)
step-Yields fuel (Operation.symlink target linkpath) s =
    ignored s _ _ (symlink-Linked fuel s target linkpath)

-- An operation that succeeds has the effect that it stands for on the map from directories and names
-- to nodes. A path that stood for nothing stands for the new or linked node; or a path that stood for
-- something stands for nothing. After a rename, the new path stands for the node of the old path,
-- whatever it stood for before but a directory with children, and then the entry that the old path
-- resolves to is gone. Every other entry is as it was.
pub step-Effect :
    (fuel : ℕ) (op : Operation) (s s' : AbstractFs)
    → step fuel op s ≡ (ok tt, s')
    → Effect fuel op s (entry s')
step-Effect fuel op s s' e = (step-Yields fuel op s).at s s' tt refl e
