-- ===== src/Encode/Declared.antt =====
-- `encode_c` of encode.rs: the variables of the descriptors in the program.
use diffuzzer.Prelude.{ℕ, ◌≡◌, ◌⊎◌, List, [], ◌∷◌, ◌++◌, codes, get_elem?, some}
use diffuzzer.Operation.{Operation, Workload}
use diffuzzer.PathName.{PathName}
use diffuzzer.Encode.{join, call, quoted, encode_c}

-- A workload opens the path as the descriptor.
abbrev pub Opens : PathName → ℕ → Workload → Type 0
Opens file des [] = ⊥
Opens file des (Operation.open_file path d ∷ ops) = ((path ≡ file) × (d ≡ des)) ⊎ Opens file des ops
Opens file des (Operation.mk_dir path mode ∷ ops) = Opens file des ops
Opens file des (Operation.create path mode ∷ ops) = Opens file des ops
Opens file des (Operation.remove path ∷ ops) = Opens file des ops
Opens file des (Operation.hardlink old_path new_path ∷ ops) = Opens file des ops
Opens file des (Operation.rename old_path new_path ∷ ops) = Opens file des ops
Opens file des (Operation.close d ∷ ops) = Opens file des ops
Opens file des (Operation.read d size ∷ ops) = Opens file des ops
Opens file des (Operation.write d src_offset size ∷ ops) = Opens file des ops
Opens file des (Operation.fsync d ∷ ops) = Opens file des ops
Opens file des (Operation.symlink target linkpath ∷ ops) = Opens file des ops

-- The text of the program declares variables, and after that has the line that opens the file, which
-- assigns to the variable of the descriptor among them.
pub record Declared (file : PathName) (des : ℕ) (ops : Workload) : Type 0 where
  pub variables : List (List ℕ)
  pub variable : List ℕ
  pub before : List ℕ
  pub after : List ℕ
  pub declared : get_elem? variables des ≡ some variable
  pub program :
      encode_c ops
      ≡ codes "#include \"executor.h\"\n"
        ++ ((codes "\nint " ++ (join (codes ", ") variables ++ codes ";\n\n"))
            ++ (codes "void test_workload()\n{\n"
                ++ ((before
                      ++ ((variable ++ (codes " = " ++ call "do_open" (quoted file ∷ [])))
                          ++ after))
                    ++ codes "}")))
