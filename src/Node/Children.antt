-- ===== src/Node/Children.antt =====
-- The `HashMap` of a directory's children: `get`, `contains_key`, `insert` and `remove`.
use diffuzzer.Prelude.{
  ◌≡◌, refl, Bool, true, false, Option, none, some, List, [], ◌∷◌, if◌then◌else◌, arith, inl, inr,
  Bool-cases,
}
use diffuzzer.PathName.{Name, text_eq}
use diffuzzer.PathName.Laws.{text_eq_iff}

module _ {ℓ} {V : Type ℓ} where
  unfoldable pub get : Name → List (Name × V) → Option V
  get k [] = none
  get k ((j, v) ∷ m) = if text_eq j k then some v else get k m

  unfoldable pub contains_key : Name → List (Name × V) → Bool
  contains_key k m = elim (get k m) [ none ↦ false | some v ↦ true ]

  unfoldable pub insert : Name → V → List (Name × V) → List (Name × V)
  insert k v [] = (k, v) ∷ []
  insert k v ((j, w) ∷ m) = if text_eq j k then (k, v) ∷ m else (j, w) ∷ insert k v m

  unfoldable pub remove : Name → List (Name × V) → List (Name × V)
  remove k [] = []
  remove k ((j, v) ∷ m) = let rest = remove k m in if text_eq j k then rest else (j, v) ∷ rest

  pub get-insert :
      (k j : Name) (v : V) (m : List (Name × V))
      → get j (insert k v m) ≡ (if text_eq k j then some v else get j m)
  unfolding get insert
  get-insert k j v [] = refl
  get-insert k j v ((i, w) ∷ m) =
      ground (arith, text_eq_iff k j, text_eq_iff i k, text_eq_iff i j, get-insert k j v m)

  pub get-remove :
      (k j : Name) (m : List (Name × V))
      → get j (remove k m) ≡ (if text_eq k j then none else get j m)
  unfolding get remove
  get-remove k j [] = ground arith
  get-remove k j ((i, w) ∷ m) =
      ground (arith, text_eq_iff k j, text_eq_iff i k, text_eq_iff i j, get-remove k j m)

  -- Every value satisfies the predicate.
  abbrev pub Values {κ} : (V → Type κ) → List (Name × V) → Type κ
  Values P [] = Unit
  Values P ((j, v) ∷ m) = P v × Values P m

  pub Values-insert {κ} :
      (P : V → Type κ) (k : Name) (v : V) (m : List (Name × V))
      → P v
      → Values P m
      → Values P (insert k v m)
  unfolding insert
  Values-insert P k v [] p h = (p, tt)
  Values-insert P k v ((j, w) ∷ m) p h = elim (Bool-cases (text_eq j k)) [
    | inl e ↦ rw e (p, h.1)
    | inr e ↦ rw e (h.0, Values-insert P k v m p h.1)
  ]

  pub Values-remove {κ} :
      (P : V → Type κ) (k : Name) (m : List (Name × V)) → Values P m → Values P (remove k m)
  unfolding remove
  Values-remove P k [] h = tt
  Values-remove P k ((j, w) ∷ m) h = elim (Bool-cases (text_eq j k)) [
    | inl e ↦ rw e (Values-remove P k m h.1)
    | inr e ↦ rw e (h.0, Values-remove P k m h.1)
  ]

  pub Values-get {κ} :
      (P : V → Type κ) (k : Name) (v : V) (m : List (Name × V))
      → Values P m
      → get k m ≡ some v
      → P v
  unfolding get
  Values-get P k v [] h e = absurd (cc)
  Values-get P k v ((j, w) ∷ m) h e = elim (Bool-cases (text_eq j k)) [
    | inl t ↦ let same : w ≡ v = ground arith in rw (← same) h.0
    | inr t ↦ Values-get P k v m h.1 (ground arith)
  ]

  pub Values-mono {κ} :
      (P Q : V → Type κ) → ((v : V) → P v → Q v) → (m : List (Name × V)) → Values P m → Values Q m
  Values-mono P Q f [] h = tt
  Values-mono P Q f ((j, w) ∷ m) h = (f w h.0, Values-mono P Q f m h.1)
