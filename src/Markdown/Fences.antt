-- ===== src/Markdown/Fences.antt =====
-- markdown.rs: the text of a code block.
use diffuzzer.Prelude.{
  ℕ, ◌≡◌, refl, ap, ◌∙◌, drop, Bool, true, false, ◌&&◌, ◌||◌, List, [], ◌∷◌, ◌++◌, ◌==◌, arith, inl,
  inr, Bool-cases, if◌then◌else◌,
}
use diffuzzer.Markdown.{newline, backtick, replace_char, replace_fence, language_of, codeblock}

abbrev pub starts_with_one : List ℕ → Bool
starts_with_one [] = false
starts_with_one (a ∷ s) = a == backtick

abbrev pub starts_with_two : List ℕ → Bool
starts_with_two [] = false
starts_with_two (a ∷ s) = a == backtick && starts_with_one s

-- Three backticks in a row
abbrev pub has_fence : List ℕ → Bool
has_fence [] = false
has_fence (a ∷ s) = a == backtick && starts_with_two s || has_fence s

-- What the replacement starts with, the text did.
one-replace_fence :
    (s : List ℕ) → starts_with_one (replace_fence s) ≡ true → starts_with_one s ≡ true
unfolding replace_fence
one-replace_fence [] h = h
one-replace_fence (a ∷ []) h = h
one-replace_fence (a ∷ b ∷ []) h = h
one-replace_fence (a ∷ b ∷ c ∷ s) h = ground (arith, h)

two-replace_fence :
    (s : List ℕ) → starts_with_two (replace_fence s) ≡ true → starts_with_two s ≡ true
unfolding replace_fence
two-replace_fence [] h = h
two-replace_fence (a ∷ []) h = h
two-replace_fence (a ∷ b ∷ []) h = h
two-replace_fence (a ∷ b ∷ c ∷ s) h = ground (arith, h, one-replace_fence (b ∷ c ∷ s))

no_fence : (s : List ℕ) → has_fence (replace_fence s) ≡ false
unfolding replace_fence
no_fence [] = refl
no_fence (a ∷ []) = ground arith
no_fence (a ∷ b ∷ []) = ground arith
no_fence (a ∷ b ∷ c ∷ s) =
    ground (arith, no_fence s, no_fence (b ∷ c ∷ s), two-replace_fence (b ∷ c ∷ s))

-- The text before the first three backticks in a row
abbrev pub before_fence : List ℕ → List ℕ
before_fence [] = []
before_fence (a ∷ s) =
    let rest = before_fence s in if a == backtick && starts_with_two s then [] else a ∷ rest

no_fence-language_of : (s : List ℕ) → has_fence (language_of s) ≡ false
unfolding language_of replace_char
no_fence-language_of [] = refl
no_fence-language_of (c ∷ s) = elim (Bool-cases (c == backtick)) [
  | inl e ↦ rw e (no_fence-language_of s)
  | inr e ↦ rw e (rw e (no_fence-language_of s))
]

-- A line that ends does not start three backticks.
starts_with_one-line : (s r : List ℕ) → starts_with_one (s ++ (newline ∷ r)) ≡ starts_with_one s
starts_with_one-line [] r = refl
starts_with_one-line (a ∷ s) r = refl

starts_with_two-line : (s r : List ℕ) → starts_with_two (s ++ (newline ∷ r)) ≡ starts_with_two s
starts_with_two-line [] r = refl
starts_with_two-line (a ∷ s) r = ap (◌&&◌ (a == backtick)) (starts_with_one-line s r)

before_fence-line :
    (s r : List ℕ)
    → has_fence s ≡ false
    → before_fence (s ++ (newline ∷ r)) ≡ s ++ (newline ∷ before_fence r)
before_fence-line [] r h = refl
before_fence-line (a ∷ s) r h = ground (arith, h, starts_with_two-line s r, before_fence-line s r)

-- A code block is closed by the fence at its end and by none before it: after the opening fence, the
-- text before the next three backticks in a row is the language and the code, as they are written.
pub before_fence-codeblock :
    (lang code : List ℕ)
    → before_fence (drop 3 (codeblock [] (language_of lang) code))
      ≡ language_of lang ++ (newline ∷ replace_fence code ++ (newline ∷ []))
unfolding codeblock
before_fence-codeblock lang code =
    before_fence-line (language_of lang) _ (no_fence-language_of lang)
    ∙ ap (λ t. language_of lang ++ (newline ∷ t))
        (before_fence-line (replace_fence code) _ (no_fence code))
