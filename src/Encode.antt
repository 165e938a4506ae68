-- ===== src/Encode.antt =====
-- diffuzzer/src/abstract_fs/encode.rs: the C program of a workload.
pub mod Declared
use diffuzzer.Prelude.{
  ℕ, zero, suc, ◌+◌, Bool, List, [], ◌∷◌, ◌++◌, map, max, ltb, if◌then◌else◌, codes, is_empty,
  String,
}
use diffuzzer.Flags.{Mode, ModeFlag, fmt}
use diffuzzer.Operation.{Operation, Workload}
use diffuzzer.Text.{to_string}

-- `join`
unfoldable pub join : List ℕ → List (List ℕ) → List ℕ
join sep [] = []
join sep (s ∷ []) = s
join sep (s ∷ t ∷ ts) = s ++ (sep ++ join sep (t ∷ ts))

unfoldable pub descriptor_to_var : ℕ → List ℕ
descriptor_to_var des = codes "fd_" ++ to_string des

unfoldable pub encode_mode : Mode → List ℕ
encode_mode mode =
    if is_empty mode then to_string 0 else join (codes " | ") (map (λ mf. codes (fmt mf)) mode)

-- The first loop of `encode_c`.
unfoldable pub count_descriptors : Workload → ℕ → ℕ
count_descriptors [] n = n
count_descriptors (Operation.open_file path des ∷ ops) n = count_descriptors ops (max n (des + 1))
count_descriptors (Operation.mk_dir path mode ∷ ops) n = count_descriptors ops n
count_descriptors (Operation.create path mode ∷ ops) n = count_descriptors ops n
count_descriptors (Operation.remove path ∷ ops) n = count_descriptors ops n
count_descriptors (Operation.hardlink old_path new_path ∷ ops) n = count_descriptors ops n
count_descriptors (Operation.rename old_path new_path ∷ ops) n = count_descriptors ops n
count_descriptors (Operation.close des ∷ ops) n = count_descriptors ops n
count_descriptors (Operation.read des size ∷ ops) n = count_descriptors ops n
count_descriptors (Operation.write des src_offset size ∷ ops) n = count_descriptors ops n
count_descriptors (Operation.fsync des ∷ ops) n = count_descriptors ops n
count_descriptors (Operation.symlink target linkpath ∷ ops) n = count_descriptors ops n

-- `fd_0`, `fd_1`, and so on: the variables from a number on, so many of them.
unfoldable pub descriptors_vars : ℕ → ℕ → List (List ℕ)
descriptors_vars from zero = []
descriptors_vars from (suc n) = (codes "fd_" ++ to_string from) ∷ descriptors_vars (suc from) n

unfoldable pub declaration : ℕ → List ℕ
declaration zero = codes "\n// no descriptors\n\n"
declaration (suc n) =
    codes "\nint " ++ (join (codes ", ") (descriptors_vars 0 (suc n)) ++ codes ";\n\n")

-- A call with its arguments, and the end of the line.
abbrev pub call : String → List (List ℕ) → List ℕ
call name args = codes name ++ (codes "(" ++ (join (codes ", ") args ++ codes ");\n"))

abbrev pub quoted : List ℕ → List ℕ
quoted s = codes "\"" ++ (s ++ codes "\"")

unfoldable pub encode_op : Operation → List ℕ
encode_op (Operation.create path mode) = call "do_create" (quoted path ∷ encode_mode mode ∷ [])
encode_op (Operation.mk_dir path mode) = call "do_mkdir" (quoted path ∷ encode_mode mode ∷ [])
encode_op (Operation.remove path) = call "do_remove" (quoted path ∷ [])
encode_op (Operation.hardlink old_path new_path) =
    call "do_hardlink" (quoted old_path ∷ quoted new_path ∷ [])
encode_op (Operation.rename old_path new_path) =
    call "do_rename" (quoted old_path ∷ quoted new_path ∷ [])
encode_op (Operation.open_file path des) =
    descriptor_to_var des ++ (codes " = " ++ call "do_open" (quoted path ∷ []))
encode_op (Operation.close des) = call "do_close" (descriptor_to_var des ∷ [])
encode_op (Operation.read des size) = call "do_read" (descriptor_to_var des ∷ to_string size ∷ [])
encode_op (Operation.write des src_offset size) =
    call "do_write" (descriptor_to_var des ∷ to_string src_offset ∷ to_string size ∷ [])
encode_op (Operation.fsync des) = call "do_fsync" (descriptor_to_var des ∷ [])
encode_op (Operation.symlink target linkpath) =
    call "do_symlink" (quoted target ∷ quoted linkpath ∷ [])

unfoldable pub encode_ops : Workload → List ℕ
encode_ops [] = []
encode_ops (op ∷ ops) = encode_op op ++ encode_ops ops

unfoldable pub encode_c : Workload → List ℕ
encode_c ops =
    codes "#include \"executor.h\"\n"
    ++ (declaration (count_descriptors ops 0)
        ++ (codes "void test_workload()\n{\n" ++ (encode_ops ops ++ codes "}")))
