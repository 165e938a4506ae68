-- ===== src/Generator.antt =====
-- diffuzzer/src/abstract_fs/generator.rs: the choice of the next operation of a test. Random numbers
-- come from a generator with state `R` (`Random`, whose documented behaviour is `RandomLaws`); names
-- come from a supply with state `G`. A failed `unwrap` is a panic. `depth` and `steps` are the fuel of
-- `alive`, `retries` how often the loop over targets of a rename may run.
pub mod Draws
pub mod Grown
pub mod Kinds
pub mod Generated
pub mod Weights
use diffuzzer.Prelude.{
  ℕ, zero, suc, Bool, true, false, not, ◌&&◌, Option, none, some, List, [], ◌∷◌, ◌++◌, map,
  if◌then◌else◌, ◌==◌, retain, is_empty,
}
use diffuzzer.PathName.{PathName, Name, join}
use diffuzzer.Flags.{Mode, ModeFlag}
use diffuzzer.Operation.{OperationKind, OperationWeights, Workload, same_kind}
use diffuzzer.Text.{to_string}
use diffuzzer.Fs.State
use diffuzzer.Fs.State.{
  AbstractFs, FsError, Result, ok, err, panic, overflow, bind, root_index, new,
  rename_to_subdirectory_error,
}
use diffuzzer.Fs.Ops
use diffuzzer.Fs.Replay.{ignore}
use diffuzzer.Fs.Alive.{AliveNodes, alive}
use diffuzzer.Generator.Draws.{
  Random, Gen, Draw, pure, ◌>>=◌, ask, name, choose, choose_weighted, attempt, run,
}

abbrev pub interesting_unsigned : List ℕ
interesting_unsigned =
    0 ∷ 1 ∷ 16 ∷ 32 ∷ 64 ∷ 100 ∷ 127 ∷ 128 ∷ 255 ∷ 256 ∷ 512 ∷ 1000 ∷ 1024 ∷ 4096 ∷ 32767 ∷ 32768
    ∷ 65535 ∷ 65536 ∷ 100000 ∷ []

abbrev pub mode : Mode
mode = ModeFlag.s_irwxu ∷ ModeFlag.s_irwxg ∷ ModeFlag.s_iroth ∷ ModeFlag.s_ixoth ∷ []

-- What an operation can be applied to.
pub record Targets : Type 0 where
  pub dirs : List PathName
  pub dirs_except_root : List PathName
  pub files : List PathName
  pub symlinks : List PathName
  pub closed_files : List PathName
  pub open_files : List ℕ

abbrev pub paths : List (ℕ × PathName) → List PathName
paths entries = map (λ x. x.1) entries

unfoldable pub closed_files_of : AbstractFs → List (ℕ × PathName) → Result (List PathName)
closed_files_of fs [] = ok []
closed_files_of fs ((idx, path) ∷ rest) = bind (State.file fs idx) λ f.
    bind (closed_files_of fs rest)
      λ others. ok (if Ops.is_some f.descriptor then others else path ∷ others)

abbrev pub and_descriptor : Option ℕ → List ℕ → List ℕ
and_descriptor none others = others
and_descriptor (some des) others = des ∷ others

unfoldable pub open_files_of : AbstractFs → List (ℕ × PathName) → Result (List ℕ)
open_files_of fs [] = ok []
open_files_of fs ((idx, path) ∷ rest) =
    bind (State.file fs idx)
      λ f. bind (open_files_of fs rest) λ others. ok (and_descriptor f.descriptor others)

unfoldable pub targets_of : AbstractFs → AliveNodes → Result Targets
targets_of fs a = bind (closed_files_of fs (a.files ++ a.files_symlinked)) λ closed_files.
    bind (open_files_of fs a.files) λ open_files. ok (record {
      dirs = paths a.dirs;
      dirs_except_root = paths (retain (λ x. not (x.0 == root_index)) a.dirs);
      files = paths a.files;
      symlinks = a.symlinks;
      closed_files = closed_files;
      open_files = open_files;
    })

-- `ops.weights.retain(|(op, _)| *op != kind)`
unfoldable pub drop_kind : OperationKind → OperationWeights → OperationWeights
drop_kind kind weights = retain (λ x. not (same_kind x.0 kind)) weights

unfoldable pub drop_if : Bool → OperationKind → OperationWeights → OperationWeights
drop_if b kind weights = if b then drop_kind kind weights else weights

-- The weights of the kinds that can be applied.
unfoldable pub applicable : Targets → OperationWeights → OperationWeights
applicable t weights =
    let nothing = is_empty t.dirs_except_root && is_empty t.files in
    let none_open = is_empty t.open_files in
    drop_if none_open OperationKind.fsync (
      drop_if none_open OperationKind.write (
        drop_if none_open OperationKind.read (
          drop_if none_open OperationKind.close (
            drop_if (is_empty t.closed_files) OperationKind.open_file (
              drop_if nothing OperationKind.rename (
                drop_if (is_empty t.files) OperationKind.hardlink
                  (drop_if nothing OperationKind.remove weights)))))))

abbrev pub is_subdirectory_error : Option FsError → Bool
is_subdirectory_error (some (rename_to_subdirectory_error old_path new_path)) = true
is_subdirectory_error e = false

module _ {R G : Type 0} (random : Random R) where
  unfoldable pub random_interesting_unsigned : Draw R G ℕ
  random_interesting_unsigned = choose random interesting_unsigned

  -- `path.join(gen_name())` in a directory picked from the given ones
  unfoldable pub new_path_in : (G → Result (Name × G)) → List PathName → Draw R G PathName
  new_path_in gen_name dirs = do path ← choose random dirs; n ← name gen_name; pure (join path n)

  -- The loop of a rename: only a target below the renamed directory is tried again.
  unfoldable pub rename_loop : ℕ → ℕ → List PathName → PathName → Name → Draw R G (Unit {0})
  rename_loop depth zero dirs old_path n = ask (λ fs. overflow)
  rename_loop depth (suc retries) dirs old_path n = do
    new_path ← choose random dirs
    failed ← attempt (ignore (Ops.rename depth old_path (join new_path n)))
    if is_subdirectory_error failed then rename_loop depth retries dirs old_path n else pure tt

module _ {R G : Type 0} (random : Random R) (gen_name : G → Result (Name × G))
    (depth retries : ℕ) where
  unfoldable pub apply_kind : Targets → OperationKind → Draw R G (Unit {0})
  apply_kind t OperationKind.mk_dir = do
    path ← new_path_in random gen_name t.dirs
    run (ignore (Ops.mkdir depth path mode))
  apply_kind t OperationKind.create = do
    path ← new_path_in random gen_name t.dirs
    run (ignore (Ops.create depth path mode))
  apply_kind t OperationKind.remove = do
    path ← choose random (t.dirs_except_root ++ (t.files ++ t.symlinks))
    run (Ops.remove depth path)
  apply_kind t OperationKind.hardlink = do
    file_path ← choose random t.files
    new_path ← new_path_in random gen_name t.dirs
    run (ignore (Ops.hardlink depth file_path new_path))
  apply_kind t OperationKind.rename = do
    old_path ← choose random (t.dirs_except_root ++ (t.files ++ t.symlinks))
    n ← name gen_name
    rename_loop random depth retries t.dirs old_path n
  apply_kind t OperationKind.open_file = do
    path ← choose random t.closed_files
    run (ignore (Ops.open_file depth path))
  apply_kind t OperationKind.close = do des ← choose random t.open_files; run (Ops.close des)
  apply_kind t OperationKind.write = do
    des ← choose random t.open_files
    size ← random_interesting_unsigned random
    run (ignore (Ops.read des size))
  apply_kind t OperationKind.read = do
    des ← choose random t.open_files
    src_offset ← random_interesting_unsigned random
    size ← random_interesting_unsigned random
    run (Ops.write des src_offset size)
  apply_kind t OperationKind.fsync = do des ← choose random t.open_files; run (Ops.fsync des)
  apply_kind t OperationKind.symlink = do
    target ← choose random (t.dirs ++ (t.files ++ t.symlinks))
    linkpath ← new_path_in random gen_name t.dirs
    run (ignore (Ops.symlink depth target linkpath))

  unfoldable pub append_one : ℕ → OperationWeights → Draw R G (Unit {0})
  append_one steps weights = do
    a ← ask (λ fs. alive fs depth steps)
    t ← ask (λ fs. targets_of fs a)
    kind ← choose_weighted random (applicable t weights)
    apply_kind t kind

  unfoldable pub append_times : ℕ → ℕ → OperationWeights → Draw R G (Unit {0})
  append_times steps zero weights = pure tt
  append_times steps (suc size) weights = do
    u ← append_one steps weights
    append_times steps size weights

-- The names of `generate_new`: the numbers in order.
abbrev pub next_name : ℕ → Result (Name × ℕ)
next_name name_idx = ok (to_string name_idx, suc name_idx)

unfoldable pub generate_new :
    {R : Type 0} → Random R → ℕ → ℕ → ℕ → R → ℕ → OperationWeights → Result Workload × R
generate_new random depth steps retries rng size weights =
    let (r, s) =
      append_times random next_name depth retries steps size weights
        (record { rng = rng; names = 0; fs = new }) in
    (bind r (λ u. ok s.fs.recording), s.rng)
