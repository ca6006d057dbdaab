-- ===== src/Metrics/Encode/Labels.antt =====
-- The labels of a series have different names.
use yomins_agent.Go.Text.{Bytes, codes, equal, equal_iff}
use yomins_agent.Metrics.Types.{MetricPoint, MetricSet}
use yomins_agent.Metrics.Encode.{
  LabelPair, agent_label_pairs, insert_sorted, sort_labels, is_agent_label, exported_name, exported,
  dto_metric,
}
use yomins_agent.Prelude.{
  Bool, true, false, ◌||◌, List, [], ◌∷◌, ◌++◌, ◌≡◌, refl, ap, sym, ◌∙◌, arith, inl, inr,
  Bool-cases,
}

-- Whether a label has the name.
abbrev pub has_name : List LabelPair → Bytes → Bool
has_name [] k = false
has_name ((name, value) ∷ labels) k = equal name k || has_name labels k

-- No name twice.
abbrev pub Distinct : List LabelPair → Type 0
Distinct [] = Unit
Distinct ((name, value) ∷ labels) = (has_name labels name ≡ false) × Distinct labels

insert_sorted-has_name :
    (p : LabelPair) (ps : List LabelPair) (k : Bytes)
    → has_name (insert_sorted p ps) k ≡ (equal p.0 k || has_name ps k)
unfolding insert_sorted
insert_sorted-has_name p [] k = refl
insert_sorted-has_name p ((n, v) ∷ ps) k = ground (arith, insert_sorted-has_name p ps k)

insert_sorted-Distinct :
    (p : LabelPair) (ps : List LabelPair)
    → has_name ps p.0 ≡ false
    → Distinct ps
    → Distinct (insert_sorted p ps)
unfolding insert_sorted
insert_sorted-Distinct (m, w) [] h d = (refl, tt)
insert_sorted-Distinct (m, w) ((n, v) ∷ ps) h (d, ds) = ground (
  arith,
  insert_sorted-has_name (m, w) ps n,
  insert_sorted-Distinct (m, w) ps,
  equal_iff m n,
  equal_iff n m,
)

sort_labels-has_name :
    (ps : List LabelPair) (k : Bytes) → has_name (sort_labels ps) k ≡ has_name ps k
unfolding sort_labels
sort_labels-has_name [] k = refl
sort_labels-has_name ((n, v) ∷ ps) k =
    insert_sorted-has_name (n, v) (sort_labels ps) k
    ∙ ap (λ b. equal n k || b) (sort_labels-has_name ps k)

sort_labels-Distinct : (ps : List LabelPair) → Distinct ps → Distinct (sort_labels ps)
unfolding sort_labels
sort_labels-Distinct [] d = tt
sort_labels-Distinct ((n, v) ∷ ps) (d, ds) =
    insert_sorted-Distinct (n, v) (sort_labels ps) (sort_labels-has_name ps n ∙ d)
      (sort_labels-Distinct ps ds)

is_agent_label-has_name : (ls : List LabelPair) (k : Bytes) → is_agent_label ls k ≡ has_name ls k
unfolding is_agent_label
is_agent_label-has_name [] k = refl
is_agent_label-has_name ((n, v) ∷ ls) k = ap (λ b. equal n k || b) (is_agent_label-has_name ls k)

has_name-here : (k v : Bytes) (xs : List LabelPair) → has_name ((k, v) ∷ xs) k ≡ true
has_name-here k v xs = rw ((equal_iff k k).1 refl) refl

has_name-there :
    (k v : Bytes) (xs : List LabelPair) (n : Bytes)
    → has_name xs n ≡ true
    → has_name ((k, v) ∷ xs) n ≡ true
has_name-there k v xs n h = ground arith

append-has_name :
    (xs ys : List LabelPair) (n : Bytes) → has_name (xs ++ ys) n ≡ (has_name xs n || has_name ys n)
append-has_name [] ys n = refl
append-has_name ((k, v) ∷ xs) ys n = ground (arith, append-has_name xs ys n)

append-Distinct :
    (xs ys : List LabelPair)
    → Distinct xs
    → Distinct ys
    → ((n : Bytes) → has_name xs n ≡ true → has_name ys n ≡ false)
    → Distinct (xs ++ ys)
append-Distinct [] ys d e apart = e
append-Distinct ((k, v) ∷ xs) ys (d, ds) e apart = (
  append-has_name xs ys k ∙ rw d (apart k (has_name-here k v xs)),
  append-Distinct xs ys ds e (λ n h. apart n (has_name-there k v xs n h)),
)

exported-cancel : (j k : Bytes) → codes "exported_" ++ j ≡ codes "exported_" ++ k → j ≡ k
exported-cancel j k e = ground arith

-- Where no label of the point is named like an exported one, the names are told apart.
module _ (agent : List LabelPair) where
  exported_name-renamed :
      (k : Bytes) → has_name agent k ≡ true → exported_name agent k ≡ codes "exported_" ++ k
  unfolding exported_name
  exported_name-renamed k h = rw (is_agent_label-has_name agent k ∙ h) refl

  exported_name-kept : (k : Bytes) → has_name agent k ≡ false → exported_name agent k ≡ k
  unfolding exported_name
  exported_name-kept k h = rw (is_agent_label-has_name agent k ∙ h) refl

  -- No label of the point has the exported name of another that the agent has.
  abbrev pub Free : List LabelPair → Type 0
  Free labels =
      (k : Bytes) → has_name agent k ≡ true → has_name labels (codes "exported_" ++ k) ≡ false

  exported_name-same :
      (j k : Bytes) (labels : List LabelPair)
      → Free labels
      → has_name labels j ≡ true
      → has_name labels k ≡ true
      → exported_name agent j ≡ exported_name agent k
      → j ≡ k
  exported_name-same j k labels free hj hk e = elim (Bool-cases (has_name agent j)) [
    | inl aj ↦ elim (Bool-cases (has_name agent k)) [
      | inl ak ↦
          exported-cancel j k (sym (exported_name-renamed j aj) ∙ e ∙ exported_name-renamed k ak)
      | inr ak ↦
          let same = sym (exported_name-renamed j aj) ∙ e ∙ exported_name-kept k ak in
          clash (sym (ap (has_name labels) same ∙ hk) ∙ free j aj)
    ]
    | inr aj ↦ elim (Bool-cases (has_name agent k)) [
      | inl ak ↦
          let same = sym (exported_name-renamed k ak) ∙ sym e ∙ exported_name-kept j aj in
          clash (sym (ap (has_name labels) same ∙ hj) ∙ free k ak)
      | inr ak ↦ sym (exported_name-kept j aj) ∙ e ∙ exported_name-kept k ak
    ]
  ]
    where
      clash : true ≡ false → j ≡ k
      clash h = ground arith

  -- A name that the loop gives to a label is not the name of another.
  exported-fresh :
      (labels : List LabelPair)
      → Free labels
      → (j : Bytes) (xs : List LabelPair) → has_name labels j ≡ true
      → ((k : Bytes) → has_name xs k ≡ true → has_name labels k ≡ true)
      → has_name xs j ≡ false
      → has_name (exported agent xs) (exported_name agent j) ≡ false
  unfolding exported
  exported-fresh labels free j [] hj sub new = refl
  exported-fresh labels free j ((k, v) ∷ xs) hj sub new =
      elim (Bool-cases (equal (exported_name agent k) (exported_name agent j))) [
        | inl e ↦
            let same : k ≡ j =
              exported_name-same k j labels free (sub k (has_name-here k v xs)) hj
                ((equal_iff (exported_name agent k) (exported_name agent j)).0 e) in
            ground (arith, (equal_iff k j).1 same)
        | inr e ↦ rw e (
            exported-fresh labels free j xs hj (λ n h. sub n (has_name-there k v xs n h))
              (later k xs new))
      ]
    where
      later :
          (k : Bytes) (xs : List LabelPair)
          → has_name ((k, v) ∷ xs) j ≡ false
          → has_name xs j ≡ false
      later k xs h = ground arith

  exported-Distinct :
      (labels : List LabelPair)
      → Free labels
      → (xs : List LabelPair) → ((k : Bytes) → has_name xs k ≡ true → has_name labels k ≡ true)
      → Distinct xs
      → Distinct (exported agent xs)
  unfolding exported
  exported-Distinct labels free [] sub d = tt
  exported-Distinct labels free ((k, v) ∷ xs) sub (d, ds) = (
    exported-fresh labels free k xs (sub k (has_name-here k v xs))
        (λ n h. sub n (has_name-there k v xs n h)) d,
    exported-Distinct labels free xs (λ n h. sub n (has_name-there k v xs n h)) ds,
  )

  -- An exported name is not one of the agent's, so the names of the loop are apart from them.
  exported-apart :
      ((k : Bytes) → has_name agent (codes "exported_" ++ k) ≡ false)
      → (n : Bytes) (xs : List LabelPair) → has_name agent n ≡ true
      → has_name (exported agent xs) n ≡ false
  unfolding exported
  exported-apart plain n [] hn = refl
  exported-apart plain n ((k, v) ∷ xs) hn = ground (
    arith,
    exported-apart plain n xs hn,
    equal_iff (exported_name agent k) n,
    plain k,
    exported_name-renamed k,
    exported_name-kept k,
  )

agent_label_pairs-Distinct : (ms : MetricSet) → Distinct (agent_label_pairs ms)
unfolding agent_label_pairs equal
agent_label_pairs-Distinct ms = (refl, (refl, (refl, (refl, (refl, tt)))))

agent_label_pairs-plain :
    (ms : MetricSet) (k : Bytes) → has_name (agent_label_pairs ms) (codes "exported_" ++ k) ≡ false
unfolding agent_label_pairs equal
agent_label_pairs-plain ms k = refl

-- The labels of a metric have different names, when those of the point have and when none of the
-- point's is called like a label of the agent with "exported_" before it.
pub dto_metric-Distinct :
    (ms : MetricSet) (pt : MetricPoint)
    → Distinct pt.labels
    → Free (agent_label_pairs ms) pt.labels
    → Distinct (dto_metric pt (agent_label_pairs ms)).label
unfolding dto_metric
dto_metric-Distinct ms pt d free =
    let agent = agent_label_pairs ms in
    let labels = sort_labels pt.labels in
    append-Distinct agent (exported agent labels) (agent_label_pairs-Distinct ms)
      (exported-Distinct agent pt.labels free labels
        (λ k h. sym (sort_labels-has_name pt.labels k) ∙ h) (sort_labels-Distinct pt.labels d))
      (λ n h. exported-apart agent (agent_label_pairs-plain ms) n labels h)
