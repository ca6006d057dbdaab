-- ===== src/Metrics/Encode/Group.antt =====
-- The families that build_families makes, independently of its map.
use yomins_agent.Go.Text.{Bytes, equal, equal_iff, bytes_eq}
use yomins_agent.Metrics.Types.{MetricType, MetricPoint, MetricSet}
use yomins_agent.Metrics.Encode.{
  LabelPair, MetricFamily, Families, agent_label_pairs, dto_metric, add_to, add_points, in_order,
  build_families,
}
use yomins_agent.Prelude.Map.{lookup, lookup-insert}
use yomins_agent.Prelude.{
  Bool, true, false, ◌||◌, Option, none, some, List, [], ◌∷◌, ◌++◌, if◌then◌else◌, map, ◌≡◌, ◌≢◌,
  refl, ap, sym, ◌∙◌, arith, inl, inr, Bool-cases, Option-cases, Each, Each-map, append-nil,
  append_assoc,
}

-- The points of one name, in order.
abbrev pub with_name : Bytes → List MetricPoint → List MetricPoint
with_name n [] = []
with_name n (p ∷ ps) = if equal p.name n then p ∷ with_name n ps else with_name n ps

abbrev pub is_in : Bytes → List Bytes → Bool
is_in n [] = false
is_in n (m ∷ ms) = equal m n || is_in n ms

-- The names in the order of their first points, less those that were seen.
abbrev pub first_names : List Bytes → List MetricPoint → List Bytes
first_names seen [] = []
first_names seen (p ∷ ps) =
    let rest = first_names (p.name ∷ seen) ps in
    let same = first_names seen ps in if is_in p.name seen then same else p.name ∷ rest

module _ (labels : List LabelPair) where
  -- The family of points of one name: the help and the type are those of the first.
  abbrev pub family_of : Bytes → List MetricPoint → MetricFamily
  family_of n [] = record { name = n; help = []; type = MetricType.gauge; metric = [] }
  family_of n (p ∷ ps) = record {
    name = p.name;
    help = p.help;
    type = p.type;
    metric = map (λ q. dto_metric q labels) (p ∷ ps);
  }

  grow : Option MetricFamily → MetricPoint → MetricFamily
  grow none p = record {
    name = p.name;
    help = p.help;
    type = p.type;
    metric = dto_metric p labels ∷ [];
  }
  grow (some f) p = record f { metric = f.metric ++ dto_metric p labels ∷ [] }

  abbrev extend : Option MetricFamily → List MetricPoint → Option MetricFamily
  extend o [] = o
  extend o (p ∷ ps) = extend (some (grow o p)) ps

  add_to-lookup :
      (n : Bytes) (p : MetricPoint) (o : Option MetricFamily) (fs : Families)
      → lookup n (add_to labels p o fs).by_name
        ≡ (if equal p.name n then some (grow o p) else lookup n fs.by_name)
  unfolding add_to grow
  add_to-lookup n p none fs = lookup-insert p.name n _ fs.by_name
  add_to-lookup n p (some f) fs = lookup-insert p.name n _ fs.by_name

  add_points-lookup :
      (n : Bytes) (ps : List MetricPoint) (fs : Families)
      → lookup n (add_points labels ps fs).by_name ≡ extend (lookup n fs.by_name) (with_name n ps)
  unfolding add_points
  add_points-lookup n [] fs = refl
  add_points-lookup n (p ∷ ps) fs =
      add_points-lookup n ps (add_to labels p (lookup p.name fs.by_name) fs)
      ∙ by (equal p.name n) refl
    where
      by :
          (b : Bool)
          → equal p.name n ≡ b
          → extend
              (lookup n (add_to labels p (lookup p.name fs.by_name) fs).by_name)
              (with_name n ps)
            ≡ extend (lookup n fs.by_name) (if b then p ∷ with_name n ps else with_name n ps)
      by true e =
          ap (λ o. extend o (with_name n ps))
            (add_to-lookup n p (lookup p.name fs.by_name) fs
              ∙ rw e (ap (λ k. some (grow (lookup k fs.by_name) p)) ((equal_iff p.name n).0 e)))
      by false e =
          ap (λ o. extend o (with_name n ps))
            (add_to-lookup n p (lookup p.name fs.by_name) fs ∙ rw e refl)

  extend-some :
      (f : MetricFamily) (ps : List MetricPoint)
      → extend (some f) ps
        ≡ some (record f { metric = f.metric ++ map (λ q. dto_metric q labels) ps })
  unfolding grow
  extend-some f [] = ap (λ ms. some (record f { metric = ms })) (sym (append-nil f.metric))
  extend-some f (p ∷ ps) =
      extend-some (grow (some f) p) ps
      ∙ ap (λ ms. some (record f { metric = ms }))
          (append_assoc f.metric (dto_metric p labels ∷ []) _)

  extend-none :
      (n : Bytes) (ps : List MetricPoint) → ps ≢ [] → extend none ps ≡ some (family_of n ps)
  unfolding grow
  extend-none n [] full = absurd (full refl)
  extend-none n (p ∷ ps) full = extend-some (grow none p) ps

  abbrev is_some : Option MetricFamily → Bool
  is_some none = false
  is_some (some f) = true

  -- The names that were seen are the keys of the map.
  abbrev Seen : List Bytes → Families → Type 0
  Seen seen fs = (n : Bytes) → is_in n seen ≡ is_some (lookup n fs.by_name)

  add_to-Seen-new :
      (p : MetricPoint) (fs : Families) (seen : List Bytes)
      → Seen seen fs
      → Seen (p.name ∷ seen) (add_to labels p none fs)
  add_to-Seen-new p fs seen h n = ground (arith, h n, add_to-lookup n p none fs)

  add_to-Seen-old :
      (p : MetricPoint) (f : MetricFamily) (fs : Families) (seen : List Bytes)
      → lookup p.name fs.by_name ≡ some f
      → Seen seen fs
      → Seen seen (add_to labels p (some f) fs)
  add_to-Seen-old p f fs seen e h n =
      ground (arith, h n, h p.name, add_to-lookup n p (some f) fs, equal_iff p.name n)

  add_to-order-new :
      (p : MetricPoint) (fs : Families) → (add_to labels p none fs).order ≡ fs.order ++ p.name ∷ []
  unfolding add_to
  add_to-order-new p fs = refl

  add_to-order-old :
      (p : MetricPoint) (f : MetricFamily) (fs : Families)
      → (add_to labels p (some f) fs).order ≡ fs.order
  unfolding add_to
  add_to-order-old p f fs = refl

  add_points-order :
      (ps : List MetricPoint) (fs : Families) (seen : List Bytes)
      → Seen seen fs
      → (add_points labels ps fs).order ≡ fs.order ++ first_names seen ps
  unfolding add_points
  add_points-order [] fs seen h = sym (append-nil fs.order)
  add_points-order (p ∷ ps) fs seen h = elim (Option-cases (lookup p.name fs.by_name)) [
    | inl e ↦
        let fresh : is_in p.name seen ≡ false = h p.name ∙ ap is_some e in
        let rest = first_names (p.name ∷ seen) ps in
        ap (λ o. (add_points labels ps (add_to labels p o fs)).order) e
        ∙ rw fresh (
            add_points-order ps (add_to labels p none fs) (p.name ∷ seen)
              (add_to-Seen-new p fs seen h)
            ∙ ap (λ o. o ++ rest) (add_to-order-new p fs)
            ∙ append_assoc fs.order (p.name ∷ []) rest)
    | inr (f, e) ↦
        let old : is_in p.name seen ≡ true = h p.name ∙ ap is_some e in
        ap (λ o. (add_points labels ps (add_to labels p o fs)).order) e
        ∙ rw old (
            add_points-order ps (add_to labels p (some f) fs) seen (add_to-Seen-old p f fs seen e h)
            ∙ ap (λ o. o ++ first_names seen ps) (add_to-order-old p f fs))
  ]

  nothing-Seen : Seen [] (record { order = []; by_name = [] })
  unfolding lookup
  nothing-Seen n = refl

  found :
      (n : Bytes) (ps : List MetricPoint)
      → ps ≢ []
      → extend (lookup n []) ps ≡ some (family_of n ps)
  unfolding lookup
  found n ps full = extend-none n ps full

  in_order-Each :
      (ns : List Bytes) (by_name : List (Bytes × MetricFamily)) (f : Bytes → MetricFamily)
      → Each (λ n. lookup n by_name ≡ some (f n)) ns
      → in_order ns by_name ≡ map f ns
  unfolding in_order
  in_order-Each [] by_name f h = refl
  in_order-Each (n ∷ ns) by_name f (h, hs) =
      rw (h, in_order) (ap (λ fams. f n ∷ fams) (in_order-Each ns by_name f hs))

with_name_longer :
    (p : MetricPoint) (ps : List MetricPoint) (n : Bytes)
    → with_name n ps ≢ []
    → with_name n (p ∷ ps) ≢ []
with_name_longer p ps n h = elim (Bool-cases (equal p.name n)) [
  | inl same ↦ rw same (λ e. ground arith)
  | inr other ↦ rw other h
]

with_name_self : (p : MetricPoint) (ps : List MetricPoint) → with_name p.name (p ∷ ps) ≢ []
with_name_self p ps = rw ((equal_iff p.name p.name).1 refl) (λ e. ground arith)

-- A name that is listed has a point.
first_names-Each :
    (seen : List Bytes) (ps : List MetricPoint)
    → Each (λ n. with_name n ps ≢ []) (first_names seen ps)
first_names-Each seen [] = tt
first_names-Each seen (p ∷ ps) =
    let more = λ (ns : List Bytes) (h : Each (λ n. with_name n ps ≢ []) ns).
      Each-map (λ n. with_name n ps ≢ []) (λ n. with_name n (p ∷ ps) ≢ []) ns
        (with_name_longer p ps) h in
    elim (Bool-cases (is_in p.name seen)) [
      | inl old ↦ rw old (more (first_names seen ps) (first_names-Each seen ps))
      | inr fresh ↦ rw fresh (
        with_name_self p ps,
        more (first_names (p.name ∷ seen) ps) (first_names-Each (p.name ∷ seen) ps),
      )
    ]

-- The families are those of the names of the points, in the order of the first point of each; a
-- family has the help and the type of the first point of its name, and a metric for each point of
-- the name, in the order of the points.
pub build_families-first_names :
    (ms : MetricSet)
    → build_families ms
      ≡ map
          (λ n. family_of (agent_label_pairs ms) n (with_name n ms.points))
          (first_names [] ms.points)
unfolding build_families
build_families-first_names ms =
    let labels = agent_label_pairs ms in
    let start : Families = record { order = []; by_name = [] } in
    let fs = add_points labels ms.points start in
    ap (λ ns. in_order ns fs.by_name)
      (add_points-order labels ms.points start [] (nothing-Seen labels))
    ∙ in_order-Each labels (first_names [] ms.points) fs.by_name _ (
        Each-map _ _ (first_names [] ms.points)
          (λ n full.
            add_points-lookup labels n ms.points start
            ∙ found labels n (with_name n ms.points) full)
          (first_names-Each [] ms.points))
