-- ===== src/Fs/Still.antt =====
-- Actions of fs.rs that leave the entries of the directories alone.
use diffuzzer.Prelude.{
  ℕ, zero, suc, ◌≡◌, refl, ◌∙◌, Bool, List, [], ◌∷◌, ◌++◌, if◌then◌else◌, get_elem?,
}
use diffuzzer.PathName.{Name}
use diffuzzer.Node.{Dir, File, Symlink, FileDescriptor}
use diffuzzer.Node.Children
use diffuzzer.Node.Children.{get-insert, get-remove}
use diffuzzer.Operation.{Operation}
use diffuzzer.Fs.State.{
  AbstractFs, FsError, Result, Exec, pure, raise, query, modify, ◌>>=◌, file_mut, descriptor_mut,
  assert, record_op,
}
use diffuzzer.Fs.Ops
use diffuzzer.Fs.Yields.{
  Yields, Yields-pure, Yields-raise, Yields-query, Yields-if, Yields-mono, Yields-modify,
  Yields-bind, Shows,
}
use diffuzzer.Fs.View.{Tree, lookup}

-- The entries stay as they are.
pub record Still {A : Type 0} (m : Exec A) : Type 0 where
  pub keeps : (t : Tree) → Yields (Shows t) m (λ _. Shows t)

module _ {A : Type 0} where
  pub Still-query : (f : AbstractFs → Result A) → Still (query f)
  Still-query f = record {
    keeps = λ t. Yields-mono _ _ _ _ _ (λ s p. p) (λ a s p. p.0) (Yields-query (Shows t) f);
  }

  pub Still-pure : (a : A) → Still (pure a)
  Still-pure a = record { keeps = λ t. Yields-pure _ _ _ (λ s p. p) }

  pub Still-raise : (x : FsError) → Still (raise {A = A} x)
  Still-raise x = record { keeps = λ t. Yields-raise _ _ x }

  pub Still-if : (b : Bool) (m n : Exec A) → Still m → Still n → Still (if b then m else n)
  Still-if b m n hm hn = record {
    keeps = λ t. Yields-if _ _ b _ _ (λ _. hm.keeps t) (λ _. hn.keeps t);
  }

pub Still-bind :
    {A B : Type 0} (m : Exec A) (f : A → Exec B)
    → Still m
    → ((a : A) → Still (f a))
    → Still (m >>= f)
Still-bind m f hm hf = record {
  keeps = λ t. Yields-bind _ (λ _. Shows t) _ _ _ (hm.keeps t) (λ a. (hf a).keeps t);
}

pub Still-modify :
    (f : AbstractFs → AbstractFs) → ((s : AbstractFs) → (f s).dirs ≡ s.dirs) → Still (modify f)
Still-modify f h = record {
  keeps = λ t. Yields-modify _ _ _ λ s p. record { same = λ j n. rw (h s) (p.same j n) };
}

pub Still-record_op : (op : Operation) → Still (record_op op)
unfolding record_op
Still-record_op op = Still-modify _ (λ s. refl)

pub Still-file_mut : (i : ℕ) (f : File → File) → Still (file_mut i f)
unfolding file_mut
Still-file_mut i f = Still-bind _ _ (Still-query _) (λ x. Still-modify _ (λ s. refl))

pub Still-descriptor_mut :
    (i : ℕ) (f : FileDescriptor → FileDescriptor) → Still (descriptor_mut i f)
unfolding descriptor_mut
Still-descriptor_mut i f = Still-bind _ _ (Still-query _) (λ x. Still-modify _ (λ s. refl))

pub Still-assert : (b : Bool) → Still (assert b)
unfolding assert
Still-assert b = Still-query _

pub Still-push_file : (x : File) → Still (Ops.push_file x)
unfolding Ops.push_file
Still-push_file x = Still-modify _ (λ s. refl)

pub Still-push_symlink : (x : Symlink) → Still (Ops.push_symlink x)
unfolding Ops.push_symlink
Still-push_symlink x = Still-modify _ (λ s. refl)

pub Still-push_descriptor : (x : FileDescriptor) → Still (Ops.push_descriptor x)
unfolding Ops.push_descriptor
Still-push_descriptor x = Still-modify _ (λ s. refl)

pub Still-opened : (des : ℕ) → Still (Ops.opened des)
unfolding Ops.opened
Still-opened des =
    Still-bind _ _ (Still-query _)
      λ d. Still-bind _ _ (Still-query _) λ f. Still-if _ _ _ (Still-raise _) (Still-pure _)

-- A new directory has no entries.
lookup-concat :
    (dirs : List Dir) (j : ℕ) (n : Name)
    → lookup (get_elem? (dirs ++ (Ops.empty_dir ∷ [])) j) n ≡ lookup (get_elem? dirs j) n
unfolding Children.get
lookup-concat [] zero n = refl
lookup-concat [] (suc j) n = refl
lookup-concat (d ∷ dirs) zero n = refl
lookup-concat (d ∷ dirs) (suc j) n = lookup-concat dirs j n

pub Still-push_dir : Still (Ops.push_dir Ops.empty_dir)
unfolding Ops.push_dir
Still-push_dir = record {
  keeps = λ t.
      Yields-modify _ _ _ λ s p. record { same = λ j n. lookup-concat s.dirs j n ∙ p.same j n };
}

pub ruleset still_rules = (
  Still-query, Still-pure, Still-raise, Still-if, Still-bind, Still-record_op, Still-file_mut,
  Still-descriptor_mut, Still-assert, Still-push_descriptor, Still-opened,
)
