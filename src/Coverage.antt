-- ===== src/Coverage.antt =====
-- diffuzzer/src/fuzzing/greybox: the feedback of feedback/mod.rs and feedback/kcov.rs, the seeds of
-- seed.rs, the queue and the path frequency of schedule.rs. A coverage map is a list of entries; in
-- the source it is a hash map, and the order of its entries is not looked at.
pub mod Counts
pub mod Queue
use diffuzzer.Prelude.{
  ℕ, zero, suc, ◌+◌, ◌-◌, ◌*◌, Bool, true, false, ◌&&◌, ◌||◌, Option, none, some, List, [], ◌∷◌,
  ◌++◌, map, if◌then◌else◌, ◌==◌, ltb, leb, length, get_elem?, update_at, add64, u64_mod, min,
}
use diffuzzer.Operation.{Workload}

abbrev pub InputCoverage : Type 0
InputCoverage = List ℕ

abbrev pub CoverageMap : Type 0
CoverageMap = List (ℕ × ℕ)

-- `HashMap::get` and `HashMap::insert`
unfoldable pub get : ℕ → CoverageMap → Option ℕ
get k [] = none
get k ((a, n) ∷ m) = let rest = get k m in if a == k then some n else rest

unfoldable pub insert : ℕ → ℕ → CoverageMap → CoverageMap
insert k n [] = (k, n) ∷ []
insert k n ((a, i) ∷ m) = let rest = insert k n m in if a == k then (a, n) ∷ m else (a, i) ∷ rest

unfoldable pub get_or : ℕ → Option ℕ → ℕ
get_or d none = d
get_or d (some n) = n

unfoldable pub keys : CoverageMap → InputCoverage
keys [] = []
keys ((a, n) ∷ m) = a ∷ keys m

pub data FeedbackOpinion : Type 0 where
  interesting not_interesting : InputCoverage → FeedbackOpinion

unfoldable pub is_interesting : FeedbackOpinion → Bool
is_interesting (interesting c) = true
is_interesting (not_interesting c) = false

unfoldable pub coverage : FeedbackOpinion → InputCoverage
coverage (interesting c) = c
coverage (not_interesting c) = c

-- The loop of `KCovCoverageFeedback::opinion`, which is also that of the LCov feedback: whether a
-- key is new, and the map after.
unfoldable pub count_keys : InputCoverage → Bool × CoverageMap → Bool × CoverageMap
count_keys [] (b, m) = (b, m)
count_keys (addr ∷ addrs) (b, m) =
    let total = get_or 0 (get addr m) in
    count_keys addrs (b || (total == 0), insert addr (add64 total 1) m)

unfoldable pub opinion_of : InputCoverage → Bool → FeedbackOpinion
opinion_of c b = if b then interesting c else not_interesting c

-- `opinion`, once the new coverage is read.
unfoldable pub opinion : CoverageMap → CoverageMap → FeedbackOpinion × CoverageMap
opinion new_coverage m =
    let (b, m') = count_keys (keys new_coverage) (false, m) in
    (opinion_of (keys new_coverage) b, m')

-- The hexadecimal digit of a character.
unfoldable pub hex_digit : ℕ → Option ℕ
hex_digit c =
    if leb b'0' c && leb c b'9'
    then some (c - b'0')
    else if leb b'a' c && leb c b'f'
    then some (c - b'a' + 10)
    else if leb b'A' c && leb c b'F'
    then some (c - b'A' + 10)
    else none

-- `trim_start_matches("0x")`, which takes away every leading `0x`.
unfoldable pub trim_0x : List ℕ → List ℕ
trim_0x [] = []
trim_0x (c ∷ []) = c ∷ []
trim_0x (c ∷ d ∷ s) = let rest = trim_0x s in if (c == b'0') && (d == b'x') then rest else c ∷ d ∷ s

abbrev pub push_digit : ℕ → Option ℕ → Option ℕ
push_digit acc none = none
push_digit acc (some d) = if ltb (acc * 16 + d) u64_mod then some (acc * 16 + d) else none

-- `u64::from_str_radix(_, 16)`, after a sign.
unfoldable pub hex_digits : Option ℕ → List ℕ → Option ℕ
hex_digits acc [] = acc
hex_digits none (c ∷ s) = none
hex_digits (some acc) (c ∷ s) = hex_digits (push_digit acc (hex_digit c)) s

unfoldable pub from_str_radix : List ℕ → Option ℕ
from_str_radix [] = none
from_str_radix (c ∷ []) = if c == b'+' then none else hex_digits (some 0) (c ∷ [])
from_str_radix (c ∷ d ∷ s) = hex_digits (some 0) (if c == b'+' then d ∷ s else c ∷ d ∷ s)

unfoldable pub parse_addr : List ℕ → Option ℕ
parse_addr addr = from_str_radix (trim_0x addr)

-- The loop of `parse_kcov`, over the lines of the file.
unfoldable pub parse_kcov : List (List ℕ) → CoverageMap → Option CoverageMap
parse_kcov [] m = some m
parse_kcov (line ∷ lines) m = elim (parse_addr line) [
  | none ↦ none
  | some addr ↦ parse_kcov lines (insert addr (add64 (get_or 0 (get addr m)) 1) m)
]

pub record Seed : Type 0 where
  pub workload : Workload
  pub times_choosen : ℕ
  pub fst_coverage : InputCoverage
  pub snd_coverage : InputCoverage

unfoldable pub new_seed : Workload → InputCoverage → InputCoverage → Seed
new_seed w fst_coverage snd_coverage = record {
  workload = w;
  times_choosen = 0;
  fst_coverage = fst_coverage;
  snd_coverage = snd_coverage;
}

-- `QueueScheduler`: the index of the next seed, the seeds and the test chosen. On an empty corpus
-- the choice fails, after the index was reset.
unfoldable pub reset_index : ℕ → List Seed → ℕ
reset_index next_index corpus = if leb (length corpus) next_index then 0 else next_index

abbrev pub choose_this : Option Seed → ℕ → List Seed → Option Workload × (ℕ × List Seed)
choose_this none i corpus = (none, (i, corpus))
choose_this (some s) i corpus = (
  some s.workload,
  (i + 1, update_at corpus i (λ s. record s { times_choosen = add64 s.times_choosen 1 })),
)

unfoldable pub choose : ℕ → List Seed → Option Workload × (ℕ × List Seed)
choose next_index corpus =
    let i = reset_index next_index corpus in choose_this (get_elem? corpus i) i corpus

-- `Iterator::min`
abbrev pub least : ℕ → Option ℕ → Option ℕ
least a none = some a
least a (some b) = some (min a b)

unfoldable pub minimum : List ℕ → Option ℕ
minimum [] = none
minimum (a ∷ rest) = least a (minimum rest)

unfoldable pub path_frequency : InputCoverage → CoverageMap → ℕ
path_frequency c m = get_or 1 (minimum (map (λ addr. get_or 1 (get addr m)) c))
