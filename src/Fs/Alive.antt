-- ===== src/Fs/Alive.antt =====
-- fs.rs, `alive` and `alive_follow_once`: the nodes that are reached from the root by a breadth-first
-- search that follows symbolic links twice. `depth` is the stack of path resolution; the source does
-- not bound the length of the search, so `steps` is how many directories one search may visit, and
-- `overflow` is its end. The children of a directory are visited in the order of their list; the
-- source's order is that of a hash map, and the lists are sorted at the end.
pub mod InRange
use diffuzzer.Prelude.{
  ℕ, zero, suc, Bool, true, false, List, [], ◌∷◌, ◌++◌, if◌then◌else◌, ◌==◌, ltb, leb, sort,
}
use diffuzzer.PathName.{PathName, Name, root, join}
use diffuzzer.Node.{Node}
use diffuzzer.Fs.State.{AbstractFs, Result, ok, err, panic, overflow, bind, dir, sym, root_index}
use diffuzzer.Fs.Resolve.{Resolved, resolve_node}

pub record AliveNodes : Type 0 where
  pub dirs : List (ℕ × PathName)
  pub files : List (ℕ × PathName)
  pub files_symlinked : List (ℕ × PathName)
  pub symlinks : List PathName

abbrev pub max_symlink_follow : ℕ
max_symlink_follow = 2

-- `Ord` of a text and of an index with a text
unfoldable pub text_le : List ℕ → List ℕ → Bool
text_le [] t = true
text_le (c ∷ s) [] = false
text_le (c ∷ s) (d ∷ t) = if c == d then text_le s t else ltb c d

unfoldable pub entry_le : ℕ × PathName → ℕ × PathName → Bool
entry_le (i, p) (j, q) = if i == j then text_le p q else ltb i j

-- What one search changes.
pub record Search : Type 0 where
  pub alive : AliveNodes
  pub queue : List (PathName × ℕ)
  pub follow_next : List (PathName × ℕ)

-- The effect on `alive` of a directory, a file, a link and a link to a file.
abbrev pub add_dir : ℕ → PathName → AliveNodes → AliveNodes
add_dir idx path a = record a { dirs = a.dirs ++ ((idx, path) ∷ []) }

abbrev pub add_file : ℕ → PathName → AliveNodes → AliveNodes
add_file idx path a = record a { files = a.files ++ ((idx, path) ∷ []) }

abbrev pub add_file_symlinked : ℕ → PathName → AliveNodes → AliveNodes
add_file_symlinked idx path a = record a {
  files_symlinked = a.files_symlinked ++ ((idx, path) ∷ []);
}

abbrev pub add_symlink : PathName → AliveNodes → AliveNodes
add_symlink path a = record a { symlinks = a.symlinks ++ (path ∷ []) }

-- The target of a link; that it does not resolve is ignored.
unfoldable pub followed : PathName → Resolved → Search → Result Search
followed path (ok (dirs, Node.file idx)) s =
    ok (record s { alive = add_file_symlinked idx path s.alive })
followed path (ok (dirs, Node.dir idx)) s = ok (record s {
  alive = add_dir idx path s.alive;
  follow_next = s.follow_next ++ ((path, idx) ∷ []);
})
followed path (ok (dirs, Node.symlink idx)) s = ok s
followed path (err e) s = ok s
followed path panic s = panic
followed path overflow s = overflow

module _ (fs : AbstractFs) (depth : ℕ) where
  unfoldable pub visit : PathName → Node → Search → Result Search
  visit path (Node.dir idx) s =
      ok (record s { alive = add_dir idx path s.alive; queue = s.queue ++ ((path, idx) ∷ []) })
  visit path (Node.file idx) s = ok (record s { alive = add_file idx path s.alive })
  visit path (Node.symlink idx) s = bind (sym fs idx) λ link.
      followed path (resolve_node fs depth link.target true)
        (record s { alive = add_symlink path s.alive })

  unfoldable pub visit_children : PathName → List (Name × Node) → Search → Result Search
  visit_children dir_path [] s = ok s
  visit_children dir_path ((child_name, node) ∷ children) s =
      bind (visit (join dir_path child_name) node s) λ t. visit_children dir_path children t

  -- The loop over the queue.
  unfoldable pub drain : ℕ → List (PathName × ℕ) → Search → Result Search
  drain steps [] s = ok s
  drain zero (next ∷ queue) s = overflow
  drain (suc steps) ((dir_path, idx) ∷ queue) s = bind (dir fs idx) λ d.
      bind (visit_children dir_path d.children (record s { queue = queue }))
        λ t. drain steps t.queue t

  unfoldable pub alive_follow_once :
      ℕ → AliveNodes → List (PathName × ℕ) → Result (AliveNodes × List (PathName × ℕ))
  alive_follow_once steps alive queue =
      bind (drain steps queue (record { alive = alive; queue = queue; follow_next = [] }))
        λ s. ok (s.alive, s.follow_next)

  -- `for _ in 1..=times`
  unfoldable pub follow_times : ℕ → ℕ → AliveNodes → List (PathName × ℕ) → Result AliveNodes
  follow_times steps zero alive queue = ok alive
  follow_times steps (suc times) alive queue =
      bind (alive_follow_once steps alive queue) λ next. follow_times steps times next.0 next.1

  unfoldable pub alive : ℕ → Result AliveNodes
  alive steps =
      bind
        (follow_times steps max_symlink_follow
          (record {
            dirs = (root_index, root) ∷ [];
            files = [];
            files_symlinked = [];
            symlinks = [];
          })
          ((root, root_index) ∷ []))
        λ a. ok (record {
          dirs = sort entry_le a.dirs;
          files = sort entry_le a.files;
          files_symlinked = sort entry_le a.files_symlinked;
          symlinks = sort text_le a.symlinks;
        })
