-- ===== src/Generator/Kinds.antt =====
-- generator.rs: the kinds of the operations that are generated.
use diffuzzer.Prelude.{
  ℕ, zero, suc, ◌≡◌, refl, sym, ap, ◌∙◌, Option, none, some, List, ◌⊎◌, inl, inr, if◌then◌else◌,
  arith, subst,
}
use diffuzzer.PathName.{PathName, Name, join}
use diffuzzer.Operation.{Operation, OperationKind, kind_of}
use diffuzzer.Fs.State.{AbstractFs, FsError, Result, ok, err, panic, overflow, Exec}
use diffuzzer.Fs.Ops
use diffuzzer.Fs.Replay.{step, ignore}
use diffuzzer.Fs.Recording.{Records}
use diffuzzer.Fs.Recorded.{step-Records}
use diffuzzer.Fs.Unrecorded.{ignore-rename-Unrecorded}
use diffuzzer.Generator.Draws.{Random, Gen, pure, run, attempt, failure, ◌>>=◌}
use diffuzzer.Generator.Grown.{
  GrownBy, added, Fixed, Grows, Grows-run, Grows-bind, Grows-if, Grows-Fixed, Fixed-pure, Fixed-ask,
  Fixed-choose, Fixed-name, >>=-ok, grown_rules,
}
use diffuzzer.Generator.{
  Targets, random_interesting_unsigned, new_path_in, rename_loop, apply_kind, mode,
  is_subdirectory_error,
}

-- The kind of the operation that is made for a kind that is drawn: a read for a write and a write for
-- a read.
abbrev pub made : OperationKind → OperationKind
made OperationKind.read = OperationKind.write
made OperationKind.write = OperationKind.read
made OperationKind.mk_dir = OperationKind.mk_dir
made OperationKind.create = OperationKind.create
made OperationKind.remove = OperationKind.remove
made OperationKind.hardlink = OperationKind.hardlink
made OperationKind.rename = OperationKind.rename
made OperationKind.open_file = OperationKind.open_file
made OperationKind.close = OperationKind.close
made OperationKind.fsync = OperationKind.fsync
made OperationKind.symlink = OperationKind.symlink

abbrev pub OfKind : OperationKind → Operation → Type 0
OfKind kind op = kind_of op ≡ kind

step-OfKind : (depth : ℕ) (op : Operation) → Records (OfKind (kind_of op)) (step depth op)
step-OfKind depth op = record {
  at = λ s s' a e. let (op', k, g) = (step-Records depth op).at s s' a e in (op', k.kind, g);
}

module _ {R G : Type 0} where
  Grows-step :
      (depth : ℕ) (op : Operation)
      → Grows (OfKind (kind_of op)) (run {R = R} {G = G} (step depth op))
  Grows-step depth op = Grows-run _ _ (step-OfKind depth op)

  -- A rename that is tried: the recording grows only if it succeeds.
  attempt_grown :
      (depth : ℕ) (old_path new_path : PathName) (s s' : Gen R G) (failed : Option FsError)
      → attempt (ignore (Ops.rename depth old_path new_path)) s ≡ (ok failed, s')
      → ((failed ≡ none) × GrownBy (OfKind OperationKind.rename) s.fs.recording s'.fs.recording)
        ⊎ (s'.fs.recording ≡ s.fs.recording)
  unfolding attempt kind_of step
  attempt_grown depth old_path new_path s s' failed h = go (m s.fs).0 (m s.fs).1 refl h
    where
      m : Exec (Unit {0})
      m = ignore (Ops.rename depth old_path new_path)

      go :
          (r : Result (Unit {0})) (fs : AbstractFs)
          → m s.fs ≡ (r, fs)
          → ◌≡◌ {A = Result (Option FsError) × Gen R G}
              (failure r, record s { fs = fs })
              (ok failed, s')
          → ((failed ≡ none) × GrownBy (OfKind OperationKind.rename) s.fs.recording s'.fs.recording)
            ⊎ (s'.fs.recording ≡ s.fs.recording)
      go (ok a) fs e h =
          let (op, k, g) =
            (step-OfKind depth (Operation.rename old_path new_path)).at s.fs fs a e in
          inl (ground (arith, h), added op k (sym (ap (λ q. q.1.fs.recording) h) ∙ g))
      go (err x) fs e h = inr (
          sym (ap (λ q. q.1.fs.recording) h)
          ∙ (ignore-rename-Unrecorded depth old_path new_path).at s.fs fs x e)
      go panic fs e h = cc
      go overflow fs e h = cc

module _ {R G : Type 0} (random : Random R) where
  Fixed-new_path_in :
      (gen_name : G → Result (Name × G)) (dirs : List PathName)
      → Fixed (new_path_in random gen_name dirs)
  unfolding new_path_in
  Fixed-new_path_in gen_name dirs = search grown_rules

  Fixed-random_interesting_unsigned : Fixed {R = R} {G = G} (random_interesting_unsigned random)
  unfolding random_interesting_unsigned
  Fixed-random_interesting_unsigned = Fixed-choose random _

  rename_loop-Grows :
      (depth retries : ℕ) (dirs : List PathName) (old_path : PathName) (n : Name)
      → Grows {R = R} {G = G}
          (OfKind OperationKind.rename)
          (rename_loop random depth retries dirs old_path n)
  unfolding rename_loop
  rename_loop-Grows depth zero dirs old_path n = Grows-Fixed _ _ (Fixed-ask _)
  rename_loop-Grows depth (suc retries) dirs old_path n =
      Grows-bind _ _ _ (Fixed-choose random dirs) λ new_path. record {
        at = λ s s' a h.
            let (failed, t, em, ef) = >>=-ok _ _ s s' a h in
            elim (attempt_grown depth old_path (join new_path n) s t failed em) [
              | inl done ↦ stop s t s' a failed done.0 done.1 ef
              | inr e ↦
                  subst (λ w. GrownBy (OfKind OperationKind.rename) w s'.fs.recording) e
                    ((Grows-if _ (is_subdirectory_error failed) _ _
                        (rename_loop-Grows depth retries dirs old_path n)
                        (Grows-Fixed _ _ (Fixed-pure tt))).at
                      t s' a ef)
            ];
      }
    where
      stop :
          (s t s' : Gen R G) (a : Unit {0}) (failed : Option FsError)
          → failed ≡ none
          → GrownBy (OfKind OperationKind.rename) s.fs.recording t.fs.recording
          → (if is_subdirectory_error failed
                then rename_loop random depth retries dirs old_path n
                else pure tt)
              t
            ≡ (ok a, s')
          → GrownBy (OfKind OperationKind.rename) s.fs.recording s'.fs.recording
      stop s t s' a (some x) none_of g e = cc
      stop s t s' a none none_of g e =
          subst
            (λ (fs : AbstractFs). GrownBy (OfKind OperationKind.rename) s.fs.recording fs.recording)
            (sym ((Fixed-pure {R = R} {G = G} tt).at t s' a e)) g

module _ {R G : Type 0} (random : Random R) (gen_name : G → Result (Name × G))
    (depth retries : ℕ) where
  Grows-at :
      (dirs : List PathName) (op : PathName → Operation) (kind : OperationKind)
      → ((path : PathName) → kind_of (op path) ≡ kind)
      → Grows
          (OfKind kind)
          (new_path_in random gen_name dirs >>= λ path. run {R = R} {G = G} (step depth (op path)))
  Grows-at dirs op kind e = Grows-bind _ _ _ (Fixed-new_path_in random gen_name dirs) λ path.
      subst (λ k. Grows {R = R} {G = G} (OfKind k) (run (step depth (op path)))) (e path)
        (Grows-step depth (op path))

  pub apply_kind-Grows :
      (t : Targets) (kind : OperationKind)
      → Grows (OfKind (made kind)) (apply_kind random gen_name depth retries t kind)
  unfolding apply_kind step kind_of
  apply_kind-Grows t OperationKind.mk_dir =
      Grows-at t.dirs (λ path. Operation.mk_dir path mode) OperationKind.mk_dir (λ _. refl)
  apply_kind-Grows t OperationKind.create =
      Grows-at t.dirs (λ path. Operation.create path mode) OperationKind.create (λ _. refl)
  apply_kind-Grows t OperationKind.remove =
      Grows-bind _ _ _ (Fixed-choose random _) λ path. Grows-step depth (Operation.remove path)
  apply_kind-Grows t OperationKind.hardlink =
      Grows-bind _ _ _ (Fixed-choose random t.files)
        λ old_path. Grows-at t.dirs (Operation.hardlink old_path) OperationKind.hardlink (λ _. refl)
  apply_kind-Grows t OperationKind.rename = Grows-bind _ _ _ (Fixed-choose random _) λ old_path.
      Grows-bind _ _ _ (Fixed-name gen_name)
        λ n. rename_loop-Grows random depth retries t.dirs old_path n
  apply_kind-Grows t OperationKind.open_file =
      Grows-bind _ _ _ (Fixed-choose random t.closed_files)
        λ path. Grows-step depth (Operation.open_file path 0)
  apply_kind-Grows t OperationKind.close =
      Grows-bind _ _ _ (Fixed-choose random t.open_files)
        λ des. Grows-step depth (Operation.close des)
  apply_kind-Grows t OperationKind.write =
      Grows-bind _ _ _ (Fixed-choose random t.open_files) λ des.
        Grows-bind _ _ _ (Fixed-random_interesting_unsigned random)
          λ size. Grows-step depth (Operation.read des size)
  apply_kind-Grows t OperationKind.read = Grows-bind _ _ _ (Fixed-choose random t.open_files) λ des.
      Grows-bind _ _ _ (Fixed-random_interesting_unsigned random) λ src_offset.
        Grows-bind _ _ _ (Fixed-random_interesting_unsigned random)
          λ size. Grows-step depth (Operation.write des src_offset size)
  apply_kind-Grows t OperationKind.fsync =
      Grows-bind _ _ _ (Fixed-choose random t.open_files)
        λ des. Grows-step depth (Operation.fsync des)
  apply_kind-Grows t OperationKind.symlink =
      Grows-bind _ _ _ (Fixed-choose random _)
        λ target. Grows-at t.dirs (Operation.symlink target) OperationKind.symlink (λ _. refl)
