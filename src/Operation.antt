-- ===== src/Operation.antt =====
-- diffuzzer/src/abstract_fs/operation.rs and workload.rs: the operations of a test, their kinds and
-- the weights with which kinds are picked.
use diffuzzer.Prelude.{ℕ, Bool, List, [], ◌∷◌, ◌++◌, ◌==◌}
use diffuzzer.PathName.{PathName}
use diffuzzer.Flags.{Mode}

pub data Operation : Type 0 where
  mk_dir : PathName → Mode → Operation
  create : PathName → Mode → Operation
  remove : PathName → Operation
  hardlink : PathName → PathName → Operation
  rename : PathName → PathName → Operation
  open_file : PathName → ℕ → Operation
  close : ℕ → Operation
  read : ℕ → ℕ → Operation
  write : ℕ → ℕ → ℕ → Operation
  fsync : ℕ → Operation
  symlink : PathName → PathName → Operation

pub data OperationKind : Type 0 where
  mk_dir create remove hardlink rename open_file close read write fsync symlink : OperationKind

unfoldable pub kind_of : Operation → OperationKind
kind_of (Operation.mk_dir path mode) = OperationKind.mk_dir
kind_of (Operation.create path mode) = OperationKind.create
kind_of (Operation.remove path) = OperationKind.remove
kind_of (Operation.hardlink old_path new_path) = OperationKind.hardlink
kind_of (Operation.rename old_path new_path) = OperationKind.rename
kind_of (Operation.open_file path des) = OperationKind.open_file
kind_of (Operation.close des) = OperationKind.close
kind_of (Operation.read des size) = OperationKind.read
kind_of (Operation.write des src_offset size) = OperationKind.write
kind_of (Operation.fsync des) = OperationKind.fsync
kind_of (Operation.symlink target linkpath) = OperationKind.symlink

abbrev pub ordinal : OperationKind → ℕ
ordinal OperationKind.mk_dir = 0
ordinal OperationKind.create = 1
ordinal OperationKind.remove = 2
ordinal OperationKind.hardlink = 3
ordinal OperationKind.rename = 4
ordinal OperationKind.open_file = 5
ordinal OperationKind.close = 6
ordinal OperationKind.read = 7
ordinal OperationKind.write = 8
ordinal OperationKind.fsync = 9
ordinal OperationKind.symlink = 10

-- The derived `==`
unfoldable pub same_kind : OperationKind → OperationKind → Bool
same_kind a b = ordinal a == ordinal b

pub OperationKind-discrete : Discrete OperationKind
OperationKind-discrete = hlevel

abbrev pub OperationWeights : Type 0
OperationWeights = List (OperationKind × ℕ)

unfoldable pub uniform : OperationWeights
uniform =
    (OperationKind.create, 100)
    ∷ (OperationKind.mk_dir, 100)
    ∷ (OperationKind.remove, 100)
    ∷ (OperationKind.hardlink, 100)
    ∷ (OperationKind.rename, 100)
    ∷ (OperationKind.open_file, 100)
    ∷ (OperationKind.close, 100)
    ∷ (OperationKind.read, 100)
    ∷ (OperationKind.write, 100)
    ∷ (OperationKind.fsync, 100)
    ∷ (OperationKind.symlink, 100)
    ∷ []

-- `Workload`: the operations, in order.
abbrev pub Workload : Type 0
Workload = List Operation

unfoldable pub push : Workload → Operation → Workload
push ops op = ops ++ (op ∷ [])
