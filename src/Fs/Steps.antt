-- ===== src/Fs/Steps.antt =====
-- One step of a workload, and a workload, on a valid file system.
use diffuzzer.Prelude.{ℕ, ◌+◌, ◌≤◌, ◌<◌, ◌≡◌, refl, [], ◌∷◌, u64_mod}
use diffuzzer.Operation.{Operation, Workload}
use diffuzzer.Fs.State.{AbstractFs, Result, ok, err, panic, overflow, pure, ◌>>=◌, continue, Exec}
use diffuzzer.Fs.Replay.{ignore, step, replay}
use diffuzzer.Fs.Valid.{IsValid}
use diffuzzer.Fs.Safe.{Safe, Safe-pure, Safe-mono, Safe-bind}
use diffuzzer.Fs.Keeps.{HasSlash, mkdir-Safe}
use diffuzzer.Fs.Linking.{create-Safe, remove-Safe, hardlink-Safe, symlink-Safe, rename-Safe}
use diffuzzer.Fs.Descriptors.{open_file-Safe, close-Safe, fsync-Safe, read-Safe}
use diffuzzer.Fs.Writing.{HasRoom, write-Safe}

-- What an operation needs: paths that split, sizes that are 64-bit numbers, and room for a write.
abbrev pub Fine : Operation → AbstractFs → Type 0
Fine (Operation.mk_dir path mode) s = HasSlash path
Fine (Operation.create path mode) s = HasSlash path
Fine (Operation.remove path) s = HasSlash path
Fine (Operation.hardlink old_path new_path) s = HasSlash old_path × HasSlash new_path
Fine (Operation.rename old_path new_path) s = HasSlash old_path × HasSlash new_path
Fine (Operation.open_file path des) s = Unit
Fine (Operation.close des) s = Unit
Fine (Operation.read des size) s = size < u64_mod
Fine (Operation.write des src_offset size) s = (src_offset + size ≤ u64_mod) × HasRoom des size s
Fine (Operation.fsync des) s = Unit
Fine (Operation.symlink target linkpath) s = HasSlash linkpath

ignore-Safe :
    {A : Type 0} (P : AbstractFs → Type 0) (m : Exec A)
    → Safe P m (λ _. IsValid)
    → Safe P (ignore m) (λ _. IsValid)
ignore-Safe P m h = Safe-bind _ (λ _. IsValid) _ _ _ h λ _. Safe-pure _ _ _ (λ s v. v)

-- What holds of one state, from what holds of every state.
at :
    {A : Type 0} (m : Exec A) (s : AbstractFs)
    → IsValid s
    → Safe IsValid m (λ _. IsValid)
    → Safe (λ t. t ≡ s) m (λ _. IsValid)
at m s v h = Safe-mono _ _ _ _ _ (λ t e. rw e v) (λ _ t w. w) h

step-Safe :
    (fuel : ℕ) (op : Operation) (s : AbstractFs)
    → IsValid s
    → Fine op s
    → Safe (λ t. t ≡ s) (step fuel op) (λ _. IsValid)
unfolding step
step-Safe fuel (Operation.mk_dir path mode) s v h =
    ignore-Safe _ _ (at _ s v (mkdir-Safe fuel path mode h))
step-Safe fuel (Operation.create path mode) s v h =
    ignore-Safe _ _ (at _ s v (create-Safe fuel path mode h))
step-Safe fuel (Operation.remove path) s v h = at _ s v (remove-Safe fuel path h)
step-Safe fuel (Operation.hardlink old_path new_path) s v h =
    ignore-Safe _ _ (at _ s v (hardlink-Safe fuel old_path new_path h.0 h.1))
step-Safe fuel (Operation.rename old_path new_path) s v h =
    ignore-Safe _ _ (at _ s v (rename-Safe fuel old_path new_path h.0 h.1))
step-Safe fuel (Operation.open_file path des) s v h =
    ignore-Safe _ _ (at _ s v (open_file-Safe fuel path))
step-Safe fuel (Operation.close des) s v h = at _ s v (close-Safe des)
step-Safe fuel (Operation.read des size) s v h = ignore-Safe _ _ (at _ s v (read-Safe des size h))
step-Safe fuel (Operation.write des src_offset size) s v h =
    Safe-mono _ _ _ _ _ (λ t e. rw e (v, h.1)) (λ _ t w. w) (write-Safe des src_offset size h.0)
step-Safe fuel (Operation.fsync des) s v h = at _ s v (fsync-Safe des)
step-Safe fuel (Operation.symlink target linkpath) s v h =
    ignore-Safe _ _ (at _ s v (symlink-Safe fuel target linkpath h))

-- The outcome is not a panic, and the file system that is left is valid. Where the stack that
-- symbolic links may use runs out, nothing is said.
abbrev pub Keeps : {A : Type 0} → Result A × AbstractFs → Type 0
Keeps (ok a, s) = IsValid s
Keeps (err e, s) = IsValid s
Keeps (panic, s) = ⊥
Keeps (overflow, s) = Unit

Keeps-of :
    {A : Type 0} {P : AbstractFs → Type 0} (m : Exec A) (s : AbstractFs)
    → P s
    → Safe P m (λ _. IsValid)
    → Keeps (m s)
Keeps-of {A} m s p h = go (m s).0 (m s).1 refl
  where
    go : (r : Result A) (t : AbstractFs) → m s ≡ (r, t) → Keeps (r, t)
    go (ok a) t e = h.value s t a p e
    go (err x) t e = h.failure s t x p e
    go panic t e = absurd (h.no_panic s t p e)
    go overflow t e = tt

-- An operation that is `Fine` on a valid file system does not panic, and whether it succeeds or
-- fails, the file system that it leaves is valid.
pub step-Keeps :
    (fuel : ℕ) (op : Operation) (s : AbstractFs) → IsValid s → Fine op s → Keeps (step fuel op s)
step-Keeps fuel op s v h = Keeps-of (step fuel op) s refl (step-Safe fuel op s v h)

-- What holds after a success.
abbrev pub After : {A : Type 0} → Result A × AbstractFs → (AbstractFs → Type 0) → Type 0
After (ok a, s) P = P s
After (err e, s) P = Unit
After (panic, s) P = Unit
After (overflow, s) P = Unit

-- Each operation of a workload is `Fine` where the replay gets to it.
abbrev pub FineAlong : ℕ → Workload → AbstractFs → Type 0
FineAlong fuel [] s = Unit
FineAlong fuel (op ∷ ops) s = Fine op s × After (step fuel op s) (FineAlong fuel ops)

Keeps-continue :
    (fuel : ℕ) (ops : Workload) (r : Result (Unit {0})) (s : AbstractFs)
    → Keeps (r, s)
    → After (r, s) (FineAlong fuel ops)
    → ((t : AbstractFs) → IsValid t → FineAlong fuel ops t → Keeps (replay fuel ops t))
    → Keeps (continue r (λ _. replay fuel ops) s)
Keeps-continue fuel ops (ok u) s k a h = h s k a
Keeps-continue fuel ops (err e) s k a h = k
Keeps-continue fuel ops panic s k a h = k
Keeps-continue fuel ops overflow s k a h = k

-- A workload whose operations are `Fine` where the replay gets to them keeps a valid file system
-- valid and does not panic, where it runs to its end and where one of its operations fails.
pub replay-Keeps :
    (fuel : ℕ) (ops : Workload) (s : AbstractFs)
    → IsValid s
    → FineAlong fuel ops s
    → Keeps (replay fuel ops s)
unfolding replay pure ◌>>=◌
replay-Keeps fuel [] s v h = v
replay-Keeps fuel (op ∷ ops) s v h =
    Keeps-continue fuel ops (step fuel op s).0 (step fuel op s).1 (step-Keeps fuel op s v h.0) h.1
      λ t w f. replay-Keeps fuel ops t w f
