-- ===== src/Mutator/Names.antt =====
-- mutator.rs: the names that `insert` makes.
use Prim.Native.Nat.{◌/◌, ◌%◌}
use diffuzzer.Prelude.{
  ℕ, zero, suc, ◌+◌, ◌-◌, ◌*◌, ◌≤◌, ◌<◌, ◌≡◌, ◌≢◌, refl, sym, ap, ◌∙◌, subst, true, false, List, [],
  ◌∷◌, ◌++◌, ◌⊎◌, inl, inr, Bool-cases, if◌then◌else◌, ltb, arith, length, All,
}
use diffuzzer.PathName.{PathName, Name, text_eq, segments}
use diffuzzer.PathName.Laws.{text_eq_iff}
use diffuzzer.Text.{digits, to_string}
use diffuzzer.Fs.State.{Result, ok}
use diffuzzer.Operation.{Operation, Workload}
use diffuzzer.Mutator.{names_of, used_names, is_used, unused_name, gen_name}

-- The number that digits stand for.
abbrev value : ℕ → List ℕ → ℕ
value acc [] = acc
value acc (c ∷ s) = value (acc * 10 + (c - b'0')) s

value-concat :
    (acc : ℕ) (s : List ℕ) (c : ℕ) → value acc (s ++ (c ∷ [])) ≡ value acc s * 10 + (c - b'0')
value-concat acc [] c = refl
value-concat acc (d ∷ s) c = value-concat (acc * 10 + (d - b'0')) s c

value-digits : (fuel n : ℕ) → n < fuel → value 0 (digits fuel n) ≡ n
unfolding digits
value-digits zero n h = absurd (omega arith)
value-digits (suc fuel) n h = elim (Bool-cases (ltb n 10)) [
  | inl small ↦ rw small (omega arith)
  | inr large ↦
      let ten : 10 ≤ n = ground (arith, large) in
      rw large (
        value-concat 0 (digits fuel (n / 10)) (b'0' + n % 10)
        ∙ ap (λ v. v * 10 + (b'0' + n % 10 - b'0')) (value-digits fuel (n / 10) (omega arith))
        ∙ omega arith)
]

-- Different numbers have different texts.
to_string-inj : (m n : ℕ) → m ≢ n → text_eq (to_string m) (to_string n) ≡ false
to_string-inj m n h = elim (Bool-cases (text_eq (to_string m) (to_string n))) [
  | inr e ↦ e
  | inl e ↦
      let same = (text_eq_iff (to_string m) (to_string n)).0 e in
      absurd (
        h (
          sym (value-digits (suc m) m (omega arith))
          ∙ ap (value 0) same
          ∙ value-digits (suc n) n (omega arith)))
]

-- A list without the first of the texts that are equal to a name.
abbrev erase : Name → List Name → List Name
erase n [] = []
erase n (x ∷ xs) = let rest = erase n xs in if text_eq x n then xs else x ∷ rest

length-erase :
    (n : Name) (xs : List Name) → is_used xs n ≡ true → length xs ≡ suc (length (erase n xs))
unfolding is_used
length-erase n [] h = absurd (cc)
length-erase n (x ∷ xs) h = ground (arith, length-erase n xs, h)

is_used-erase :
    (n m : Name) (xs : List Name)
    → text_eq n m ≡ false
    → is_used xs m ≡ true
    → is_used (erase n xs) m ≡ true
unfolding is_used
is_used-erase n m [] e h = h
is_used-erase n m (x ∷ xs) e h =
    ground (arith, is_used-erase n m xs e, h, e, text_eq_iff x n, text_eq_iff x m, text_eq_iff n m)

-- So many numbers in a row are used only if there are as many names.
all_used :
    (count i : ℕ) (used : List Name)
    → ((k : ℕ) → i ≤ k → k < i + count → is_used used (to_string k) ≡ true)
    → count ≤ length used
all_used zero i used h = omega arith
all_used (suc count) i used h =
    let here = h i (omega arith) (omega arith) in
    let shorter = length-erase (to_string i) used here in
    let rest = all_used count (suc i) (erase (to_string i) used) λ k above below.
      is_used-erase (to_string i) (to_string k) used (to_string-inj i k (λ e. omega arith))
        (h k (omega arith) (omega arith)) in
    omega (arith, shorter, rest)

-- A name is made that is not among the used ones.
record Fresh (used : List Name) (r : Result (Name × ℕ)) : Type 0 where
  pub name : Name
  pub next : ℕ
  pub made : r ≡ ok (name, next)
  pub unused : is_used used name ≡ false

unused_name-cases :
    (fuel : ℕ) (used : List Name) (i : ℕ)
    → Fresh used (unused_name fuel used i)
      ⊎ ((k : ℕ) → i ≤ k → k < i + fuel → is_used used (to_string k) ≡ true)
unfolding unused_name
unused_name-cases zero used i = inr (λ k above below. absurd (omega arith))
unused_name-cases (suc fuel) used i = elim (Bool-cases (is_used used (to_string i))) [
  | inr e ↦ inl (rw e (record { name = to_string i; next = suc i; made = refl; unused = e }))
  | inl e ↦ elim (unused_name-cases fuel used (suc i)) [
    | inl fresh ↦ inl (rw e fresh)
    | inr taken ↦ inr (λ k above below. elim (split_at_first i k above) [
      | inl same ↦ subst (λ m. is_used used (to_string m) ≡ true) same e
      | inr later ↦ taken k later (omega arith)
    ])
  ]
]
  where
    split_at_first : (i k : ℕ) → i ≤ k → (i ≡ k) ⊎ (suc i ≤ k)
    split_at_first i k h = elim (Bool-cases (ltb i k)) [
      | inl e ↦ inr (ground (arith, e))
      | inr e ↦ inl (ground (arith, e, h))
    ]

gen_name_lem : (used : List Name) (i : ℕ) → Fresh used (gen_name used i)
unfolding gen_name
gen_name_lem used i = elim (unused_name-cases (suc (length used)) used i) [
  | inl fresh ↦ fresh
  | inr taken ↦ absurd (omega (arith, all_used (suc (length used)) i used taken))
]

-- The paths of an operation that may make or use an entry: all but that of a removal.
abbrev pub paths_of : Operation → List PathName
paths_of (Operation.mk_dir path mode) = path ∷ []
paths_of (Operation.create path mode) = path ∷ []
paths_of (Operation.remove path) = []
paths_of (Operation.hardlink old_path new_path) = old_path ∷ new_path ∷ []
paths_of (Operation.rename old_path new_path) = old_path ∷ new_path ∷ []
paths_of (Operation.open_file path des) = path ∷ []
paths_of (Operation.close des) = []
paths_of (Operation.read des size) = []
paths_of (Operation.write des src_offset size) = []
paths_of (Operation.fsync des) = []
paths_of (Operation.symlink target linkpath) = target ∷ linkpath ∷ []

-- The name is no segment of a path.
abbrev pub IsAbsent : Name → PathName → Type 0
IsAbsent name path = All (λ n. n ≢ name) (segments path)

-- A name is made that is no segment of a path of the workload, except perhaps of a path that is removed.
pub record FreshIn (workload : Workload) (r : Result (Name × ℕ)) : Type 0 where
  pub name : Name
  pub next : ℕ
  pub made : r ≡ ok (name, next)
  pub absent : All (λ op. All (IsAbsent name) (paths_of op)) workload

is_used-append :
    (ms ns : List Name) (name : Name)
    → is_used (ms ++ ns) name ≡ false
    → (is_used ms name ≡ false) × (is_used ns name ≡ false)
unfolding is_used
is_used-append [] ns name h = (refl, h)
is_used-append (m ∷ ms) ns name h = ground (arith, h, is_used-append ms ns name)

unused-All : (ns : List Name) (name : Name) → is_used ns name ≡ false → All (λ n. n ≢ name) ns
unfolding is_used
unused-All [] name h = tt
unused-All (n ∷ ns) name h =
    let split : (text_eq n name ≡ false) × (is_used ns name ≡ false) = ground (arith, h) in
    (λ e. absurd (ground (arith, (text_eq_iff n name).1 e, split.0)), unused-All ns name split.1)

both :
    (p q : PathName) (name : Name)
    → is_used (segments p ++ segments q) name ≡ false
    → All (IsAbsent name) (p ∷ q ∷ [])
both p q name h =
    let split = is_used-append (segments p) (segments q) name h in
    (unused-All _ name split.0, (unused-All _ name split.1, tt))

names_of-IsAbsent :
    (op : Operation) (name : Name)
    → is_used (names_of op) name ≡ false
    → All (IsAbsent name) (paths_of op)
unfolding names_of
names_of-IsAbsent (Operation.mk_dir path mode) name h = (unused-All _ name h, tt)
names_of-IsAbsent (Operation.create path mode) name h = (unused-All _ name h, tt)
names_of-IsAbsent (Operation.remove path) name h = tt
names_of-IsAbsent (Operation.hardlink old_path new_path) name h = both old_path new_path name h
names_of-IsAbsent (Operation.rename old_path new_path) name h = both old_path new_path name h
names_of-IsAbsent (Operation.open_file path des) name h = (unused-All _ name h, tt)
names_of-IsAbsent (Operation.close des) name h = tt
names_of-IsAbsent (Operation.read des size) name h = tt
names_of-IsAbsent (Operation.write des src_offset size) name h = tt
names_of-IsAbsent (Operation.fsync des) name h = tt
names_of-IsAbsent (Operation.symlink target linkpath) name h = both target linkpath name h

used_names-IsAbsent :
    (ops : Workload) (name : Name)
    → is_used (used_names ops) name ≡ false
    → All (λ op. All (IsAbsent name) (paths_of op)) ops
unfolding used_names
used_names-IsAbsent [] name h = tt
used_names-IsAbsent (op ∷ ops) name h =
    let split = is_used-append (names_of op) (used_names ops) name h in
    (names_of-IsAbsent op name split.0, used_names-IsAbsent ops name split.1)

-- The name that an insertion makes for a workload always exists, from any number on that is tried
-- first, and it is no segment of a path of an operation of the workload other than a removal: among
-- one more numbers than there are used names, one is not used.
pub gen_name-FreshIn :
    (workload : Workload) (i : ℕ) → FreshIn workload (gen_name (used_names workload) i)
gen_name-FreshIn workload i =
    let fresh = gen_name_lem (used_names workload) i in
    record {
      name = fresh.name;
      next = fresh.next;
      made = fresh.made;
      absent = used_names-IsAbsent workload fresh.name fresh.unused;
    }
