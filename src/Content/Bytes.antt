-- ===== src/Content/Bytes.antt =====
-- The source offsets that a content stands for, byte by byte, and the contents that fit in `u64`.
use diffuzzer.Prelude.{
  ℕ, zero, suc, ◌+◌, ◌-◌, ◌≤◌, ◌<◌, ◌≡◌, refl, ap, ap₂, ◌∙◌, true, List, [], ◌∷◌, ◌++◌,
  append_assoc, arith, length, take, drop, All, length-append, u64_mod, add64, sub64, add64_lem,
  min, take-append_le, drop-append_le,
}
use diffuzzer.Content.{SourceSlice, Content, slice_size, size_from, size, nonempty}

-- `a, a + 1, …`, `n` of them.
abbrev pub upto : ℕ → ℕ → List ℕ
upto a zero = []
upto a (suc n) = a ∷ upto (suc a) n

abbrev pub width : SourceSlice → ℕ
width s = s.to + 1 - s.from

abbrev pub expand : List SourceSlice → List ℕ
expand [] = []
expand (s ∷ ss) = upto s.from (width s) ++ expand ss

abbrev pub bytes : Content → List ℕ
bytes c = expand c.slices

abbrev pub total : List SourceSlice → ℕ
total [] = 0
total (s ∷ ss) = width s + total ss

abbrev pub OfSlice : SourceSlice → Type 0
OfSlice s = (s.from ≤ s.to) × (s.to < u64_mod)

-- No slice is empty, and no offset or size wraps.
pub record IsFit (c : Content) : Type 0 where
  pub slices : All OfSlice c.slices
  pub sized : length (bytes c) < u64_mod

pub length-upto : (a n : ℕ) → length (upto a n) ≡ n
length-upto a zero = refl
length-upto a (suc n) = ap suc (length-upto (suc a) n)

pub take-upto : (k a n : ℕ) → k ≤ n → take k (upto a n) ≡ upto a k
take-upto zero a n h = refl
take-upto (suc k) a zero h = absurd (omega arith)
take-upto (suc k) a (suc n) h = ap (◌∷◌ a) (take-upto k (suc a) n (omega arith))

pub take-upto-min : (m a w : ℕ) → take m (upto a w) ≡ upto a (min m w)
take-upto-min zero a w = ap (upto a) {x = 0} (omega arith)
take-upto-min (suc m) a zero = ap (upto a) {x = 0} (omega arith)
take-upto-min (suc m) a (suc w) =
    ap (◌∷◌ a) (take-upto-min m (suc a) w) ∙ ap (upto a) {x = suc (min m w)} (omega arith)

pub drop-upto : (k a n : ℕ) → k ≤ n → drop k (upto a n) ≡ upto (a + k) (n - k)
drop-upto zero a n h = ap₂ upto (omega arith) (omega arith)
drop-upto (suc k) a zero h = absurd (omega arith)
drop-upto (suc k) a (suc n) h =
    drop-upto k (suc a) n (omega arith) ∙ ap₂ upto (omega arith) (omega arith)

-- Cutting inside the first run of bytes.
pub take-upto-append : (k a n : ℕ) (ys : List ℕ) → k ≤ n → take k (upto a n ++ ys) ≡ upto a k
take-upto-append k a n ys h =
    take-append_le k (upto a n) ys (omega (arith, length-upto a n)) ∙ take-upto k a n h

pub drop-upto-append :
    (k a n : ℕ) (ys : List ℕ) → k ≤ n → drop k (upto a n ++ ys) ≡ upto (a + k) (n - k) ++ ys
drop-upto-append k a n ys h =
    drop-append_le k (upto a n) ys (omega (arith, length-upto a n))
    ∙ ap (λ zs. zs ++ ys) (drop-upto k a n h)

pub length-expand : (ss : List SourceSlice) → length (expand ss) ≡ total ss
length-expand [] = refl
length-expand (s ∷ ss) = omega (
  arith,
  length-append (upto s.from (width s)) (expand ss),
  length-upto s.from (width s),
  length-expand ss,
)

pub expand-append : (ss ts : List SourceSlice) → expand (ss ++ ts) ≡ expand ss ++ expand ts
expand-append [] ts = refl
expand-append (s ∷ ss) ts = rw (expand-append ss ts, append_assoc)

pub total-append : (ss ts : List SourceSlice) → total (ss ++ ts) ≡ total ss + total ts
total-append [] ts = omega arith
total-append (s ∷ ss) ts = omega (arith, total-append ss ts)

pub slice_size-eq : (s : SourceSlice) → OfSlice s → width s < u64_mod → slice_size s ≡ width s
unfolding slice_size add64 sub64
slice_size-eq s h k = ground arith

pub nonempty_of_OfSlice : (s : SourceSlice) → OfSlice s → width s < u64_mod → nonempty s ≡ true
nonempty_of_OfSlice s h k = ground (arith, slice_size-eq s h k)

pub size_from-eq :
    (acc : ℕ) (ss : List SourceSlice)
    → All OfSlice ss
    → acc + total ss < u64_mod
    → size_from acc ss ≡ acc + total ss
unfolding size_from
size_from-eq acc [] h k = omega arith
size_from-eq acc (s ∷ ss) h k =
    rw (slice_size-eq s h.0 (omega arith), add64_lem acc (width s) (omega arith))
      (size_from-eq (acc + width s) ss h.1 (omega arith) ∙ omega arith)

-- The computed size of a content that fits is the number of its bytes.
pub size-length : (c : Content) → IsFit c → size c ≡ length (bytes c)
unfolding size
size-length c h =
    let sum = length-expand c.slices in
    size_from-eq 0 c.slices h.slices (omega (arith, h.sized)) ∙ omega arith
