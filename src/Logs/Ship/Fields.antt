-- ===== src/Logs/Ship/Fields.antt =====
-- Whose word counts in the object that an entry becomes.
use yomins_agent.Go.Text.{Bytes, codes, equal, equal_iff, is_empty, bytes_eq}
use yomins_agent.Prelude.Map.{lookup, insert, lookup-insert}
use yomins_agent.Prelude.{
  ℕ, Bool, true, false, not, ◌&&◌, Option, none, some, List, [], ◌∷◌, ◌==◌, if◌then◌else◌, ◌≡◌,
  refl, sym, ap, ◌∙◌, arith, inl, inr, Bool-cases,
}
use yomins_agent.Logs.Types.{Entry}
use yomins_agent.Logs.Ship.{ShipperConfig, is_reserved, set_unless_empty, copy_fields, object}

lookup-set_unless_empty :
    (k name v : Bytes) (obj : List (Bytes × Bytes))
    → lookup k (set_unless_empty name v obj)
      ≡ (if not (is_empty v) && equal name k then some v else lookup k obj)
unfolding set_unless_empty
lookup-set_unless_empty k name v obj = elim (Bool-cases (is_empty v)) [
  | inl empty ↦ rw empty refl
  | inr full ↦ rw full (lookup-insert name k v obj)
]

lookup-insert_if :
    (b c : Bool) (k name v : Bytes) (obj : List (Bytes × Bytes))
    → lookup k (if b && c then insert name v obj else obj)
      ≡ (if b && (c && equal name k) then some v else lookup k obj)
lookup-insert_if true true k name v obj = lookup-insert name k v obj
lookup-insert_if true false k name v obj = refl
lookup-insert_if false c k name v obj = refl

abbrev or_else : Bool → Bytes → Option Bytes → Option Bytes
or_else b v other = if b then some v else other

module _ (redact : Bytes → Bytes) (format_time : ℕ → Bytes)
    (marshal : List (Bytes × Bytes) → Option Bytes) (cfg : ShipperConfig) where
  -- What the agent itself says under a name; `other` where it says nothing.
  abbrev pub agent_value : ℕ → Entry → Bytes → Option Bytes → Option Bytes
  agent_value now e k other =
      if not (is_empty e.level) && equal (codes "level") k
      then some e.level
      else if not (is_empty e.unit) && equal (codes "unit") k
      then some e.unit
      else if not (is_empty e.path) && equal (codes "file") k
      then some e.path
      else if equal (codes "source") k
      then some e.source
      else if equal (codes "_msg") k
      then some (redact e.msg)
      else if equal (codes "_time") k
      then some (format_time (if e.time == 0 then now else e.time))
      else other

  -- What the parser's fields say under a name, the last one of that name, redacted.
  unfoldable pub parser_value : Bytes → List (Bytes × Bytes) → Option Bytes → Option Bytes
  parser_value k [] before = before
  parser_value k ((name, v) ∷ fields) before = parser_value k fields (
      if not (is_reserved name) && (not (is_empty name) && equal name k)
      then some (redact v)
      else before)

  lookup-copy_fields :
      (k : Bytes) (fields obj : List (Bytes × Bytes))
      → lookup k (copy_fields redact format_time marshal cfg fields obj)
        ≡ parser_value k fields (lookup k obj)
  unfolding copy_fields parser_value
  lookup-copy_fields k [] obj = refl
  lookup-copy_fields k ((name, v) ∷ fields) obj =
      lookup-copy_fields k fields
        (if not (is_reserved name) && not (is_empty name) then insert name (redact v) obj else obj)
      ∙ ap (parser_value k fields)
          (lookup-insert_if (not (is_reserved name)) (not (is_empty name)) k name (redact v) obj)

  keeps_before :
      (k name v : Bytes) (before : Option Bytes)
      → is_reserved k ≡ true
      → (if not (is_reserved name) && (not (is_empty name) && equal name k)
          then some (redact v)
          else before)
        ≡ before
  keeps_before k name v before h = elim (Bool-cases (equal name k)) [
    | inr other ↦ ground (arith, other)
    | inl same ↦
        let reserved : is_reserved name ≡ true = ap is_reserved ((equal_iff name k).0 same) ∙ h in
        ground (arith, reserved)
  ]

  parser_value-reserved :
      (k : Bytes) (fields : List (Bytes × Bytes)) (before : Option Bytes)
      → is_reserved k ≡ true
      → parser_value k fields before ≡ before
  unfolding parser_value
  parser_value-reserved k [] before h = refl
  parser_value-reserved k ((name, v) ∷ fields) before h =
      ap (parser_value k fields) (keeps_before k name v before h)
      ∙ parser_value-reserved k fields before h

  free_value :
      (k : Bytes) (fields : List (Bytes × Bytes))
      → lookup k (copy_fields redact format_time marshal cfg fields [])
        ≡ (if is_reserved k then none else parser_value k fields none)
  unfolding lookup
  free_value k fields = elim (Bool-cases (is_reserved k)) [
    | inl reserved ↦
        lookup-copy_fields k fields []
        ∙ parser_value-reserved k fields none reserved
        ∙ ap (λ b. if b then none else parser_value k fields none) (sym reserved)
    | inr free ↦
        lookup-copy_fields k fields []
        ∙ ap (λ b. if b then none else parser_value k fields none) (sym free)
  ]

  -- Under every name, the object of an entry has what the agent says, and only where the agent
  -- says nothing and the name is not reserved what the parser says, redacted.
  pub lookup-object :
      (now : ℕ) (e : Entry) (k : Bytes)
      → lookup k (object redact format_time marshal cfg now e)
        ≡ agent_value now e k (if is_reserved k then none else parser_value k e.fields none)
  unfolding object
  lookup-object now e k =
      let free = copy_fields redact format_time marshal cfg e.fields [] in
      let time = format_time (if e.time == 0 then now else e.time) in
      let with_time = insert (codes "_time") time free in
      let with_msg = insert (codes "_msg") (redact e.msg) with_time in
      let with_source = insert (codes "source") e.source with_msg in
      let with_file = set_unless_empty (codes "file") e.path with_source in
      let with_unit = set_unless_empty (codes "unit") e.unit with_file in
      lookup-set_unless_empty k (codes "level") e.level with_unit
      ∙ ap (or_else (not (is_empty e.level) && equal (codes "level") k) e.level) (
          lookup-set_unless_empty k (codes "unit") e.unit with_file
          ∙ ap (or_else (not (is_empty e.unit) && equal (codes "unit") k) e.unit) (
              lookup-set_unless_empty k (codes "file") e.path with_source
              ∙ ap (or_else (not (is_empty e.path) && equal (codes "file") k) e.path) (
                  lookup-insert (codes "source") k e.source with_msg
                  ∙ ap (or_else (equal (codes "source") k) e.source) (
                      lookup-insert (codes "_msg") k (redact e.msg) with_time
                      ∙ ap (or_else (equal (codes "_msg") k) (redact e.msg)) (
                          lookup-insert (codes "_time") k time free
                          ∙ ap (or_else (equal (codes "_time") k) time) (free_value k e.fields))))))
