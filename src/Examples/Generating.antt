-- ===== src/Examples/Generating.antt =====
-- The search for nodes, the generator, insertions and mutations.
use diffuzzer.Prelude.{
  ℕ, zero, suc, ◌≤◌, ◌<◌, ◌≡◌, refl, Option, none, some, List, [], ◌∷◌, codes, arith, length, max,
  get_elem?, take, drop, sort,
}
use diffuzzer.PathName.{
  split, rfind, join, segments, is_valid, is_root, text_eq, parts, ends_with_slash,
}
use diffuzzer.Text.{digits}
use diffuzzer.Operation.{Operation, OperationKind, Workload, kind_of, push, uniform, same_kind}
use diffuzzer.Node.Children
use diffuzzer.Fs.State
use diffuzzer.Fs.State.{ok, new}
use diffuzzer.Fs.Resolve
use diffuzzer.Fs.Ops
use diffuzzer.Fs.Replay.{step, replay}
use diffuzzer.Fs.Valid.{new-IsValid}
use diffuzzer.Fs.Resolved.{Good}
use diffuzzer.Fs.Alive
use diffuzzer.Fs.Alive.InRange.{InRange, alive-InRange}
use diffuzzer.Generator
use diffuzzer.Generator.{Targets, applicable, generate_new, append_one}
use diffuzzer.Generator.Draws
use diffuzzer.Generator.Draws.{Random, RandomLaws}
use diffuzzer.Generator.Weights.{Weighted, HasTarget, applicable-HasTarget}
use diffuzzer.Generator.Generated.{Generated, generate_new-Generated}
use diffuzzer.Mutator
use diffuzzer.Mutator.Kind.{MutationKind}
use diffuzzer.Mutator.Names.{FreshIn, gen_name-FreshIn}
use diffuzzer.Mutator.Insertion.{Between, insert-Between}
use diffuzzer.Greybox.Mutate
use diffuzzer.Greybox.Mutate.{Settings}
use diffuzzer.Greybox.Length.{length-mutate}

alive-InRange_example : Good (InRange new) (Alive.alive new 2 5)
alive-InRange_example = alive-InRange new new-IsValid 2 5

-- The least index, number and kind that are allowed.
abbrev pub first_positive : List ℕ → Option ℕ
first_positive [] = none
first_positive (zero ∷ ws) = elim (first_positive ws) [ none ↦ none | some i ↦ some (suc i) ]
first_positive (suc w ∷ ws) = some 0

abbrev pub least : Random ℕ
least = record {
  index = λ n r. (0, suc r);
  weighted = λ ws r. (first_positive ws, suc r);
  range = λ low high r. (low, suc r);
}

first_positive_lem :
    (ws : List ℕ) (i : ℕ)
    → first_positive ws ≡ some i
    → (w : ℕ) × (get_elem? ws i ≡ some w) × (0 < w)
first_positive_lem [] i e = absurd (cc)
first_positive_lem (zero ∷ ws) i e = go (first_positive ws) (first_positive_lem ws) i e
  where
    go :
        (o : Option ℕ)
        → ((i : ℕ) → o ≡ some i → (w : ℕ) × (get_elem? ws i ≡ some w) × (0 < w))
        → (i : ℕ) → elim o [ none ↦ none | some i ↦ some (suc i) ] ≡ some i
        → (w : ℕ) × (get_elem? (zero ∷ ws) i ≡ some w) × (0 < w)
    go none h i e = absurd (cc)
    go (some j) h zero e = absurd (ground (arith, e))
    go (some j) h (suc i) e = h i (ground (arith, e))
first_positive_lem (suc w ∷ ws) zero e = (suc w, refl, omega arith)
first_positive_lem (suc w ∷ ws) (suc i) e = absurd (ground (arith, e))

pub least-RandomLaws : RandomLaws least
least-RandomLaws = record {
  index_lt = λ n r h. h;
  weighted_positive = λ ws r i e. first_positive_lem ws i e;
  range_within = λ low high r h. (omega arith, h);
}

-- Two files are made, with the first two names.
abbrev two_files : Workload
two_files =
    Operation.create (codes "/0") Generator.mode ∷ Operation.create (codes "/1") Generator.mode ∷ []

generated : (generate_new least 2 5 3 0 2 uniform).0 ≡ ok two_files
unfolding generate_new digits join uniform same_kind kind_of sort Alive.alive Alive.follow_times
    Alive.alive_follow_once Alive.drain Alive.visit Alive.visit_children Alive.followed
    Alive.entry_le Alive.text_le Generator.append_times append_one Generator.apply_kind
    Generator.new_path_in Generator.applicable Generator.drop_if Generator.drop_kind
    Generator.targets_of Generator.closed_files_of Generator.open_files_of Draws.choose
    Draws.choose_weighted Draws.name Draws.run Draws.ask Draws.pure Draws.◌>>=◌ replay step
    Ops.create Ops.mkdir Ops.push_dir Ops.push_file Ops.parent_of Ops.name_exists State.file
    State.raise State.◌>>=◌ split rfind Resolve.as_dir Resolve.resolve_dir Resolve.resolve_node
    Resolve.resolve_node_rec is_valid ends_with_slash is_root text_eq Resolve.walk Resolve.enter
    segments parts Resolve.follow State.dir State.dir_mut State.modify State.pure State.query
    State.record_op Children.contains_key Children.get Children.insert push
generated = refl

generate_new-Generated_example : Generated 2 uniform two_files
generate_new-Generated_example =
    generate_new-Generated least least-RandomLaws 2 5 3 0 2 uniform two_files generated

-- Nothing to open, to close or to remove.
abbrev only_root : Targets
only_root = record {
  dirs = codes "/" ∷ [];
  dirs_except_root = [];
  files = [];
  symlinks = [];
  closed_files = [];
  open_files = [];
}

create_left : Weighted (applicable only_root uniform) OperationKind.create
unfolding applicable Generator.drop_if Generator.drop_kind uniform same_kind
create_left = record { index = 0; weight = 100; found = refl; positive = omega arith }

applicable-HasTarget_example :
    Weighted uniform OperationKind.create × HasTarget only_root OperationKind.create
applicable-HasTarget_example =
    applicable-HasTarget only_root uniform OperationKind.create create_left

abbrev one_file : Workload
one_file = Operation.create (codes "/0") Generator.mode ∷ []

-- The first name that is not used is taken.
abbrev inserted_file : Workload
inserted_file =
    Operation.create (codes "/1") Generator.mode ∷ Operation.create (codes "/0") Generator.mode ∷ []

inserted : (Mutator.insert least 2 5 3 0 one_file 0 uniform).0 ≡ ok (some inserted_file)
unfolding Mutator.insert Mutator.gen_name Mutator.unused_name Mutator.is_used Mutator.used_names
    Mutator.names_of digits join uniform same_kind kind_of sort Alive.alive Alive.follow_times
    Alive.alive_follow_once Alive.drain Alive.visit Alive.visit_children Alive.followed
    Alive.entry_le Alive.text_le Generator.append_times append_one Generator.apply_kind
    Generator.new_path_in Generator.applicable Generator.drop_if Generator.drop_kind
    Generator.targets_of Generator.closed_files_of Generator.open_files_of Draws.choose
    Draws.choose_weighted Draws.name Draws.run Draws.ask Draws.pure Draws.◌>>=◌ replay step
    Ops.create Ops.mkdir Ops.push_dir Ops.push_file Ops.parent_of Ops.name_exists State.file
    State.raise State.◌>>=◌ split rfind Resolve.as_dir Resolve.resolve_dir Resolve.resolve_node
    Resolve.resolve_node_rec is_valid ends_with_slash is_root text_eq Resolve.walk Resolve.enter
    segments parts Resolve.follow State.dir State.dir_mut State.modify State.pure State.query
    State.record_op Children.contains_key Children.get Children.insert push
inserted = refl

insert-Between_example : Between (take 0 one_file) (drop 0 one_file) uniform inserted_file
insert-Between_example =
    insert-Between least least-RandomLaws 2 5 3 0 one_file 0 uniform inserted_file inserted

abbrev settings : Settings
settings = record {
  operation_weights = uniform;
  mutation_weights = (MutationKind.insert, 1) ∷ (MutationKind.remove, 1) ∷ [];
  max_length = 5;
  max_mutations = 2;
}

mutated : (Mutate.mutate least 2 5 3 settings 4 0 one_file).0 ≡ ok inserted_file
unfolding Mutate.mutate Mutate.mutate_loop Mutate.mutate_once Mutate.applicable Mutate.drop_if
    Mutator.insert Mutator.gen_name Mutator.unused_name Mutator.is_used Mutator.used_names
    Mutator.names_of digits join uniform same_kind kind_of sort Alive.alive Alive.follow_times
    Alive.alive_follow_once Alive.drain Alive.visit Alive.visit_children Alive.followed
    Alive.entry_le Alive.text_le Generator.append_times append_one Generator.apply_kind
    Generator.new_path_in Generator.applicable Generator.drop_if Generator.drop_kind
    Generator.targets_of Generator.closed_files_of Generator.open_files_of Draws.choose
    Draws.choose_weighted Draws.name Draws.run Draws.ask Draws.pure Draws.◌>>=◌ replay step
    Ops.create Ops.mkdir Ops.push_dir Ops.push_file Ops.parent_of Ops.name_exists State.file
    State.raise State.◌>>=◌ split rfind Resolve.as_dir Resolve.resolve_dir Resolve.resolve_node
    Resolve.resolve_node_rec is_valid ends_with_slash is_root text_eq Resolve.walk Resolve.enter
    segments parts Resolve.follow State.dir State.dir_mut State.modify State.pure State.query
    State.record_op Children.contains_key Children.get Children.insert push
mutated = refl

length-mutate_example : length inserted_file ≤ max (length one_file) settings.max_length
length-mutate_example =
    length-mutate least least-RandomLaws 2 5 3 settings 4 0 one_file inserted_file mutated

gen_name-FreshIn_example :
    FreshIn
      (Operation.mk_dir (codes "/0") [] ∷ [])
      (Mutator.gen_name (Mutator.used_names (Operation.mk_dir (codes "/0") [] ∷ [])) 0)
gen_name-FreshIn_example = gen_name-FreshIn (Operation.mk_dir (codes "/0") [] ∷ []) 0
