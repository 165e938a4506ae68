-- ===== src/Greybox/Initial.antt =====
-- greybox/fuzzer.rs: the tests of the given corpus that are used.
use diffuzzer.Prelude.{
  ℕ, zero, suc, ◌<◌, ◌≡◌, refl, sym, ap, ◌∙◌, ◌↔◌, true, ◌&&◌, some, [], ◌∷◌, arith, get_elem?, All,
  ltb, inl, inr, Bool-cases, ◌==◌, if◌then◌else◌,
}
use diffuzzer.Operation.{OperationKind, OperationWeights, Workload, kind_of, same_kind, ordinal}
use diffuzzer.Generator.Weights.{Weighted}
use diffuzzer.Greybox.Fuzz.{has_weight, all_weighted}

abbrev of_ordinal : ℕ → OperationKind
of_ordinal n =
    if n == 0
    then OperationKind.mk_dir
    else if n == 1
    then OperationKind.create
    else if n == 2
    then OperationKind.remove
    else if n == 3
    then OperationKind.hardlink
    else if n == 4
    then OperationKind.rename
    else if n == 5
    then OperationKind.open_file
    else if n == 6
    then OperationKind.close
    else if n == 7
    then OperationKind.read
    else if n == 8
    then OperationKind.write
    else if n == 9
    then OperationKind.fsync
    else OperationKind.symlink

of_ordinal-ordinal : (kind : OperationKind) → of_ordinal (ordinal kind) ≡ kind
of_ordinal-ordinal OperationKind.mk_dir = refl
of_ordinal-ordinal OperationKind.create = refl
of_ordinal-ordinal OperationKind.remove = refl
of_ordinal-ordinal OperationKind.hardlink = refl
of_ordinal-ordinal OperationKind.rename = refl
of_ordinal-ordinal OperationKind.open_file = refl
of_ordinal-ordinal OperationKind.close = refl
of_ordinal-ordinal OperationKind.read = refl
of_ordinal-ordinal OperationKind.write = refl
of_ordinal-ordinal OperationKind.fsync = refl
of_ordinal-ordinal OperationKind.symlink = refl

same_kind_eq : (a b : OperationKind) → same_kind a b ≡ true → a ≡ b
unfolding same_kind
same_kind_eq a b h =
    let same : ordinal a ≡ ordinal b = ground (arith, h) in
    sym (of_ordinal-ordinal a) ∙ ap of_ordinal same ∙ of_ordinal-ordinal b

has_weight_sound :
    (weights : OperationWeights) (op : OperationKind)
    → has_weight weights op ≡ true
    → Weighted weights op
unfolding has_weight
has_weight_sound [] op h = absurd (cc)
has_weight_sound ((kind, w) ∷ weights) op h = elim (Bool-cases (same_kind op kind && ltb 0 w)) [
  | inl e ↦
      let same : op ≡ kind = same_kind_eq op kind (ground (arith, e)) in
      record {
        index = 0;
        weight = w;
        found = ap (λ k. some (k, w)) (sym same);
        positive = ground (arith, e);
      }
  | inr e ↦
      let rest = has_weight_sound weights op (ground (arith, h, e)) in
      record {
        index = suc rest.index;
        weight = rest.weight;
        found = rest.found;
        positive = rest.positive;
      }
]

has_weight_complete :
    (weights : OperationWeights) (op : OperationKind) (i w : ℕ)
    → get_elem? weights i ≡ some (op, w)
    → 0 < w
    → has_weight weights op ≡ true
unfolding has_weight same_kind
has_weight_complete [] op i w e p = absurd (cc)
has_weight_complete ((kind, v) ∷ weights) op zero w e p =
    let same : kind ≡ op = ground (arith, e) in
    let weight : v ≡ w = ground (arith, e) in rw (same, weight) (ground (arith, p))
has_weight_complete ((kind, v) ∷ weights) op (suc i) w e p =
    ground (arith, has_weight_complete weights op i w e p)

-- A test of the given corpus passes the filter exactly when each of its operations has a kind with a
-- positive weight.
pub all_weighted_iff :
    (weights : OperationWeights) (w : Workload)
    → (all_weighted weights w ≡ true) ↔ All (λ op. Weighted weights (kind_of op)) w
unfolding all_weighted
all_weighted_iff weights [] = (λ e. tt, λ h. refl)
all_weighted_iff weights (op ∷ ops) = (
  λ e. (
    has_weight_sound weights (kind_of op) (ground (arith, e)),
    (all_weighted_iff weights ops).0 (ground (arith, e)),
  ),
  λ h. ground (
    arith,
    (all_weighted_iff weights ops).1 h.1,
    has_weight_complete weights (kind_of op) h.0.index h.0.weight h.0.found h.0.positive,
  ),
)
