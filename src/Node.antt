-- ===== src/Node.antt =====
-- diffuzzer/src/abstract_fs/node.rs. An index is its number. The children of a directory, a
-- `HashMap`, are an association list with distinct names.
pub mod Children
use diffuzzer.Prelude.{ℕ, Option, List}
use diffuzzer.PathName.{Name, PathName}
use diffuzzer.Content.{Content}

pub data Node : Type 0 where
  file : ℕ → Node
  dir : ℕ → Node
  symlink : ℕ → Node

pub record File : Type 0 where
  pub descriptor : Option ℕ
  pub content : Content

pub record FileDescriptor : Type 0 where
  pub file : ℕ
  pub offset : ℕ

pub record Dir : Type 0 where
  pub children : List (Name × Node)

pub record Symlink : Type 0 where
  pub target : PathName
