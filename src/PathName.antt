-- ===== src/PathName.antt =====
-- diffuzzer/src/abstract_fs/pathname.rs. A text is its list of UTF-8 bytes; `/` is one byte.
pub mod Laws
use diffuzzer.Prelude.{
  ℕ, zero, suc, ◌+◌, Bool, true, false, not, ◌&&◌, ◌||◌, Option, none, some, List, [], ◌∷◌, ◌++◌,
  if◌then◌else◌, ◌==◌, take, drop, retain, is_empty, codes,
}

abbrev pub Name : Type 0
Name = List ℕ

abbrev pub PathName : Type 0
PathName = List ℕ

abbrev pub slash : ℕ
slash = b'/'

abbrev pub root : PathName
root = slash ∷ []

-- `==` on texts
unfoldable pub text_eq : List ℕ → List ℕ → Bool
text_eq [] [] = true
text_eq [] (d ∷ t) = false
text_eq (c ∷ s) [] = false
text_eq (c ∷ s) (d ∷ t) = (c == d) && text_eq s t

-- `str::rfind`: the last position of a byte
unfoldable pub rfind : ℕ → List ℕ → Option ℕ
rfind b [] = none
rfind b (c ∷ s) = elim (rfind b s) [
  | some i ↦ some (i + 1)
  | none ↦ if c == b then some 0 else none
]

unfoldable pub is_root : PathName → Bool
is_root p = text_eq p root

-- `none` is the panic of `unwrap` on a path with no slash.
unfoldable pub split : PathName → Option (PathName × Name)
split p = elim (rfind slash p) [
  | none ↦ none
  | some i ↦
      if is_empty (take i p) then some (root, drop (i + 1) p) else some (take i p, drop (i + 1) p)
]

abbrev pub prepend : ℕ → List (List ℕ) → List (List ℕ)
prepend c [] = (c ∷ []) ∷ []
prepend c (p ∷ ps) = (c ∷ p) ∷ ps

-- `str::split` at slashes: there is always a part
unfoldable pub parts : List ℕ → List (List ℕ)
parts [] = [] ∷ []
parts (c ∷ s) = let rest = parts s in if c == slash then [] ∷ rest else prepend c rest

unfoldable pub segments : PathName → List Name
segments p = retain (λ s. not (is_empty s)) (parts p)

unfoldable pub join : PathName → Name → PathName
join p name = if is_root p then slash ∷ name else p ++ (slash ∷ name)

unfoldable pub ends_with_slash : List ℕ → Bool
ends_with_slash [] = false
ends_with_slash (c ∷ []) = c == slash
ends_with_slash (c ∷ d ∷ s) = ends_with_slash (d ∷ s)

abbrev pub starts_with_slash : List ℕ → Bool
starts_with_slash [] = false
starts_with_slash (c ∷ s) = c == slash

unfoldable pub is_valid : PathName → Bool
is_valid p = (not (ends_with_slash p) || is_root p) && (starts_with_slash p && not (is_empty p))
