-- ===== src/Fs/Unlinked.antt =====
-- Path resolution of fs.rs on a file system without symbolic links.
use diffuzzer.Prelude.{
  ℕ, suc, ◌<◌, ◌≡◌, refl, Bool, true, false, Option, none, some, List, [], ◌∷◌, ◌++◌, arith, length,
  get_elem?, get_elem?-lt, Bool-cases, inl, inr,
}
use diffuzzer.PathName.{PathName, Name, slash, is_valid, segments}
use diffuzzer.Node.{Node}
use diffuzzer.Node.Children
use diffuzzer.Node.Children.{Values-get}
use diffuzzer.Fs.State.{
  AbstractFs, FsError, Result, ok, err, panic, overflow, bind, unwrap, ok_or, dir,
}
use diffuzzer.Fs.Resolve.{Resolved, enter, walk, follow, resolve_node_rec, resolve_node}
use diffuzzer.Fs.Valid.{IsValid, NodeOf}

-- The result is a value with `P`, or an error: no panic, and no end of the stack.
abbrev pub Settled : {A : Type 0} → (A → Type 0) → Result A → Type 0
Settled P (ok a) = P a
Settled P (err e) = Unit
Settled P panic = ⊥
Settled P overflow = ⊥

record Settles {A : Type 0} (P : A → Type 0) (r : Result A) : Type 0 where
  settled : Settled P r

Settles-bind :
    {A B : Type 0} (P : A → Type 0) (Q : B → Type 0) (r : Result A) (f : A → Result B)
    → Settles P r
    → ((a : A) → P a → Settles Q (f a))
    → Settles Q (bind r f)
Settles-bind P Q (ok a) f h g = g a h.settled
Settles-bind P Q (err e) f h g = record { settled = tt }
Settles-bind P Q panic f h g = absurd h.settled
Settles-bind P Q overflow f h g = absurd h.settled

Settles-unwrap :
    {A : Type 0} (xs : List A) (i : ℕ)
    → i < length xs
    → Settles (λ a. get_elem? xs i ≡ some a) (unwrap (get_elem? xs i))
Settles-unwrap xs i lt = let (a, e) = get_elem?-lt xs i lt in rw e (record { settled = refl })

Settles-ok_or : {A : Type 0} (o : Option A) (e : FsError) → Settles (λ a. o ≡ some a) (ok_or o e)
Settles-ok_or none e = record { settled = tt }
Settles-ok_or (some a) e = record { settled = refl }

module _ (fs : AbstractFs) (v : IsValid fs) (unlinked : length fs.symlinks ≡ 0) where
  enter-Settles :
      (resolve : PathName → Result (List ℕ × ℕ)) (path : PathName) (dirs : List ℕ) (last : Node)
      → NodeOf fs last
      → Settles (λ x. x.1 < length fs.dirs) (enter fs resolve path dirs last)
  unfolding enter
  enter-Settles resolve path dirs (Node.dir idx) h = record { settled = h }
  enter-Settles resolve path dirs (Node.symlink idx) h = absurd (omega arith)
  enter-Settles resolve path dirs (Node.file idx) h = record { settled = tt }

  walk-Settles :
      (resolve : PathName → Result (List ℕ × ℕ)) (segs : List Name) (path : PathName)
      (dirs : List ℕ) (last : Node)
      → NodeOf fs last
      → Settles (λ x. NodeOf fs x.2) (walk fs resolve segs path dirs last)
  unfolding walk dir
  walk-Settles resolve [] path dirs last h = record { settled = h }
  walk-Settles resolve (segment ∷ segs) path dirs last h =
      Settles-bind _ _ _ _ (enter-Settles resolve (path ++ (slash ∷ segment)) dirs last h)
        λ found lt. Settles-bind _ _ _ _ (Settles-unwrap fs.dirs found.1 lt) λ d ed.
          Settles-bind _ _ _ _ (Settles-ok_or (Children.get segment d.children) _) λ node en.
            walk-Settles resolve segs (path ++ (slash ∷ segment)) found.0 node
              (Values-get (NodeOf fs) segment node d.children (v.children found.1 d ed) en)

  follow-Settles :
      (resolve : PathName → List ℕ → Resolved) (b : Bool) (visited : List ℕ) (path : PathName)
      (dirs : List ℕ) (last : Node)
      → NodeOf fs last
      → Settles (λ x. NodeOf fs x.1) (follow fs resolve b visited path dirs last)
  unfolding follow
  follow-Settles resolve b visited path dirs (Node.symlink idx) h = absurd (omega arith)
  follow-Settles resolve true visited path dirs (Node.file idx) h = record { settled = h }
  follow-Settles resolve false visited path dirs (Node.file idx) h = record { settled = h }
  follow-Settles resolve true visited path dirs (Node.dir idx) h = record { settled = h }
  follow-Settles resolve false visited path dirs (Node.dir idx) h = record { settled = h }

  resolve_node_rec-Settles :
      (fuel : ℕ) (path : PathName) (b : Bool) (visited : List ℕ)
      → Settles (λ x. NodeOf fs x.1) (resolve_node_rec fs (suc fuel) path b visited)
  unfolding resolve_node_rec
  resolve_node_rec-Settles fuel path b visited = elim (Bool-cases (is_valid path)) [
    | inr e ↦ rw e (record { settled = tt })
    | inl e ↦ rw e (
        Settles-bind _ _ _ _ (walk-Settles _ (segments path) [] [] (Node.dir 0) v.root)
          λ x n. follow-Settles _ b visited x.0 x.1 x.2 n)
  ]

  -- On a valid file system without symbolic links, the resolution of any path ends without a nested
  -- call: it is an error, or a node of the file system.
  pub resolve_node-Settled :
      (fuel : ℕ) (path : PathName) (b : Bool)
      → Settled (λ x. NodeOf fs x.1) (resolve_node fs (suc fuel) path b)
  unfolding resolve_node
  resolve_node-Settled fuel path b = (resolve_node_rec-Settles fuel path b []).settled
