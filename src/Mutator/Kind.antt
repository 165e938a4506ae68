-- ===== src/Mutator/Kind.antt =====
-- mutator.rs, `MutationKind` and `MutationWeights`.
use diffuzzer.Prelude.{ℕ, Bool, true, false, List}

pub data MutationKind : Type 0 where
  insert remove : MutationKind

abbrev pub MutationWeights : Type 0
MutationWeights = List (MutationKind × ℕ)

-- The derived `==`
unfoldable pub same_kind : MutationKind → MutationKind → Bool
same_kind MutationKind.insert MutationKind.insert = true
same_kind MutationKind.insert MutationKind.remove = false
same_kind MutationKind.remove MutationKind.insert = false
same_kind MutationKind.remove MutationKind.remove = true
