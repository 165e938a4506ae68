-- ===== src/Fs/Alive/InRange.antt =====
-- The indices that `alive` of fs.rs lists.
use diffuzzer.Prelude.{
  ℕ, zero, suc, ◌<◌, refl, true, List, [], ◌∷◌, length, All, All-append, All-sort,
}
use diffuzzer.PathName.{PathName, Name, join}
use diffuzzer.Node.{Node}
use diffuzzer.Node.Children.{Values}
use diffuzzer.Fs.State.{AbstractFs, ok, err, panic, overflow, dir, sym}
use diffuzzer.Fs.Resolve.{Resolved}
use diffuzzer.Fs.Valid.{IsValid, NodeOf}
use diffuzzer.Fs.Resolved.{Good, Good-ok, Good-bind, Good-unwrap, Good-overflow, resolve_node-Good}
use diffuzzer.Fs.Alive.{
  AliveNodes, Search, followed, visit, visit_children, drain, alive_follow_once, follow_times,
  alive, entry_le,
}

module _ (fs : AbstractFs) where
  -- The listed indices are of directories and files of the file system.
  pub record InRange (a : AliveNodes) : Type 0 where
    pub dirs : All (λ x. x.0 < length fs.dirs) a.dirs
    pub files : All (λ x. x.0 < length fs.files) a.files
    pub files_symlinked : All (λ x. x.0 < length fs.files) a.files_symlinked

  abbrev QueueInRange : List (PathName × ℕ) → Type 0
  QueueInRange = All (λ x. x.1 < length fs.dirs)

  record SearchInRange (s : Search) : Type 0 where
    alive : InRange s.alive
    queue : QueueInRange s.queue
    follow_next : QueueInRange s.follow_next

  followed-InRange :
      (path : PathName) (r : Resolved) (s : Search)
      → Good (λ x. NodeOf fs x.1) r
      → SearchInRange s
      → Good SearchInRange (followed path r s)
  unfolding followed
  followed-InRange path (ok (dirs, Node.file idx)) s g h = Good-ok _ _ (record {
    alive = record {
      dirs = h.alive.dirs;
      files = h.alive.files;
      files_symlinked =
          All-append _ s.alive.files_symlinked _ h.alive.files_symlinked (g.value _ refl, tt);
    };
    queue = h.queue;
    follow_next = h.follow_next;
  })
  followed-InRange path (ok (dirs, Node.dir idx)) s g h = Good-ok _ _ (record {
    alive = record {
      dirs = All-append _ s.alive.dirs _ h.alive.dirs (g.value _ refl, tt);
      files = h.alive.files;
      files_symlinked = h.alive.files_symlinked;
    };
    queue = h.queue;
    follow_next = All-append _ s.follow_next _ h.follow_next (g.value _ refl, tt);
  })
  followed-InRange path (ok (dirs, Node.symlink idx)) s g h = Good-ok _ _ h
  followed-InRange path (err e) s g h = Good-ok _ _ h
  followed-InRange path panic s g h = absurd (g.no_panic refl)
  followed-InRange path overflow s g h = Good-overflow _

module _ (fs : AbstractFs) (v : IsValid fs) (depth : ℕ) where
  visit-InRange :
      (path : PathName) (node : Node) (s : Search)
      → NodeOf fs node
      → SearchInRange fs s
      → Good (SearchInRange fs) (visit fs depth path node s)
  unfolding visit sym
  visit-InRange path (Node.dir idx) s n h = Good-ok _ _ (record {
    alive = record {
      dirs = All-append _ s.alive.dirs _ h.alive.dirs (n, tt);
      files = h.alive.files;
      files_symlinked = h.alive.files_symlinked;
    };
    queue = All-append _ s.queue _ h.queue (n, tt);
    follow_next = h.follow_next;
  })
  visit-InRange path (Node.file idx) s n h = Good-ok _ _ (record {
    alive = record {
      dirs = h.alive.dirs;
      files = All-append _ s.alive.files _ h.alive.files (n, tt);
      files_symlinked = h.alive.files_symlinked;
    };
    queue = h.queue;
    follow_next = h.follow_next;
  })
  visit-InRange path (Node.symlink idx) s n h =
      Good-bind _ _ _ _ (Good-unwrap fs.symlinks idx n) λ link _.
        followed-InRange fs path _ _ (resolve_node-Good fs v depth link.target true) (record {
          alive = record {
            dirs = h.alive.dirs;
            files = h.alive.files;
            files_symlinked = h.alive.files_symlinked;
          };
          queue = h.queue;
          follow_next = h.follow_next;
        })

  visit_children-InRange :
      (path : PathName) (children : List (Name × Node)) (s : Search)
      → Values (NodeOf fs) children
      → SearchInRange fs s
      → Good (SearchInRange fs) (visit_children fs depth path children s)
  unfolding visit_children
  visit_children-InRange path [] s n h = Good-ok _ _ h
  visit_children-InRange path ((name, node) ∷ children) s n h =
      Good-bind _ _ _ _ (visit-InRange (join path name) node s n.0 h)
        λ t k. visit_children-InRange path children t n.1 k

  drain-InRange :
      (steps : ℕ) (queue : List (PathName × ℕ)) (s : Search)
      → QueueInRange fs queue
      → SearchInRange fs s
      → Good (SearchInRange fs) (drain fs depth steps queue s)
  unfolding drain dir
  drain-InRange zero [] s q h = Good-ok _ _ h
  drain-InRange (suc steps) [] s q h = Good-ok _ _ h
  drain-InRange zero (next ∷ queue) s q h = Good-overflow _
  drain-InRange (suc steps) ((path, idx) ∷ queue) s q h =
      Good-bind _ _ _ _ (Good-unwrap fs.dirs idx q.0) λ d e.
        Good-bind _ _ _ _
          (visit_children-InRange path d.children _ (v.children idx d e)
            (record { alive = h.alive; queue = q.1; follow_next = h.follow_next }))
          λ t k. drain-InRange steps t.queue t k.queue k

  follow_times-InRange :
      (steps times : ℕ) (a : AliveNodes) (queue : List (PathName × ℕ))
      → InRange fs a
      → QueueInRange fs queue
      → Good (InRange fs) (follow_times fs depth steps times a queue)
  unfolding follow_times alive_follow_once
  follow_times-InRange steps zero a queue h q = Good-ok _ _ h
  follow_times-InRange steps (suc times) a queue h q =
      Good-bind (λ x. InRange fs x.0 × QueueInRange fs x.1) _ _ _
        (Good-bind _ _ _ _
          (drain-InRange steps queue _ q (record { alive = h; queue = q; follow_next = tt }))
          λ s k. Good-ok _ _ (k.alive, k.follow_next))
        λ x k. follow_times-InRange steps times x.0 x.1 k.0 k.1

  -- On a valid file system the search for nodes reachable from the root does not panic, and where it
  -- returns, each index that it lists is of a directory or file of the file system.
  pub alive-InRange : (steps : ℕ) → Good (InRange fs) (alive fs depth steps)
  unfolding alive
  alive-InRange steps =
      Good-bind _ _ _ _
        (follow_times-InRange steps 2 _ _
          (record { dirs = (v.root, tt); files = tt; files_symlinked = tt }) (v.root, tt))
        λ a h. Good-ok _ _ (record {
          dirs = All-sort entry_le _ a.dirs h.dirs;
          files = All-sort entry_le _ a.files h.files;
          files_symlinked = All-sort entry_le _ a.files_symlinked h.files_symlinked;
        })
