-- ===== src/Events/Network/Poll/News.antt =====
-- Which events a poll gives, after any polls: those of the listeners that the last scan lacked.
use yomins_agent.Go.Text.{Bytes, bytes_eq, equal, equal_iff}
use yomins_agent.Events.Types.{Event, EventType}
use yomins_agent.Events.Network.{Config, ListenEntry, Proto}
use yomins_agent.Events.Network.ProcNet.{key}
use yomins_agent.Events.Network.Poll.{
  make_connection_open_event, make_suspicious_port_event, events_unless_known, detect_new,
  index_listeners,
}
use yomins_agent.Events.Network.Poll.Keys.{key-injective}
use yomins_agent.Prelude.Map.{lookup, insert, lookup-insert}
use yomins_agent.Prelude.{
  ℕ, Bool, true, false, ◌&&◌, ◌||◌, Option, none, some, List, [], ◌∷◌, ◌++◌, ◌==◌, if◌then◌else◌,
  ◌≡◌, ◌↔◌, refl, ap, ap₂, sym, ◌∙◌, arith, inl, inr, Bool-cases,
}

abbrev same_proto : Proto → Proto → Bool
same_proto Proto.tcp Proto.tcp = true
same_proto Proto.tcp6 Proto.tcp6 = true
same_proto _ _ = false

-- Whether two listeners are the same.
abbrev same_listener : ListenEntry → ListenEntry → Bool
same_listener e f =
    same_proto e.proto f.proto && (equal e.local_ip f.local_ip && e.local_port == f.local_port)

same_proto_iff : (p q : Proto) → (same_proto p q ≡ true) ↔ (p ≡ q)
same_proto_iff Proto.tcp Proto.tcp = ((λ h. refl), (λ h. refl))
same_proto_iff Proto.tcp Proto.tcp6 = ((λ h. ground arith), (λ h. ground arith))
same_proto_iff Proto.tcp6 Proto.tcp = ((λ h. ground arith), (λ h. ground arith))
same_proto_iff Proto.tcp6 Proto.tcp6 = ((λ h. refl), (λ h. refl))

same_listener_iff : (e f : ListenEntry) → (same_listener e f ≡ true) ↔ (e ≡ f)
same_listener_iff e f =
    ground (arith, same_proto_iff e.proto f.proto, equal_iff e.local_ip f.local_ip)

-- Whether a listener is among others.
abbrev pub is_among : ListenEntry → List ListenEntry → Bool
is_among l [] = false
is_among l (e ∷ es) = same_listener e l || is_among l es

abbrev is_known : Option ListenEntry → Bool
is_known none = false
is_known (some l) = true

same-keys : (e f : ListenEntry) → equal (key e) (key f) ≡ same_listener e f
same-keys e f = elim (Bool-cases (equal (key e) (key f))) [
  | inl same ↦
      same
      ∙ sym ((same_listener_iff e f).1 (key-injective e f ((equal_iff (key e) (key f)).0 same)))
  | inr other ↦ elim (Bool-cases (same_listener e f)) [
    | inl h ↦ (equal_iff (key e) (key f)).1 (ap key ((same_listener_iff e f).0 h)) ∙ sym h
    | inr h ↦ other ∙ sym h
  ]
]

known-index :
    (l : ListenEntry) (ls : List ListenEntry) (m : List (Bytes × ListenEntry))
    → is_known (lookup (key l) (index_listeners ls m))
      ≡ (is_among l ls || is_known (lookup (key l) m))
unfolding index_listeners
known-index l [] m = refl
known-index l (e ∷ es) m =
    known-index l es (insert (key e) e m)
    ∙ ground (arith, lookup-insert (key e) (key l) e m, same-keys e l)

no-others : (l : ListenEntry) (b : Bool) → (b || is_known (lookup (key l) [])) ≡ b
unfolding lookup
no-others l true = refl
no-others l false = refl

module _ (c : Config) (id : EventType → Option ListenEntry → Bytes) (now : ℕ) where
  -- Two events for each listener that `prev` lacks.
  abbrev pub new_events : List ListenEntry → List ListenEntry → List Event
  new_events prev [] = []
  new_events prev (l ∷ ls) =
      (if is_among l prev
        then []
        else make_connection_open_event c id now l ∷ make_suspicious_port_event c id now l ∷ [])
      ++ new_events prev ls

  unless-known :
      (l : ListenEntry) (o : Option ListenEntry) (b : Bool)
      → is_known o ≡ b
      → events_unless_known c id now l o ≡ (
          if b
          then []
          else make_connection_open_event c id now l ∷ make_suspicious_port_event c id now l ∷ [])
  unfolding events_unless_known
  unless-known l none b e = rw (← e) refl
  unless-known l (some k) b e = rw (← e) refl

  pub detect_new-current :
      (prev : List (Bytes × ListenEntry)) (ls : List ListenEntry)
      (current : List (Bytes × ListenEntry))
      → (detect_new c id now prev ls current).0 ≡ index_listeners ls current
  unfolding detect_new index_listeners
  detect_new-current prev [] current = refl
  detect_new-current prev (l ∷ ls) current = detect_new-current prev ls (insert (key l) l current)

  pub detect_new-events :
      (prev : List ListenEntry) (ls : List ListenEntry) (current : List (Bytes × ListenEntry))
      → (detect_new c id now (index_listeners prev []) ls current).1 ≡ new_events prev ls
  unfolding detect_new
  detect_new-events prev [] current = refl
  detect_new-events prev (l ∷ ls) current =
      ap₂ ◌++◌
        (unless-known l (lookup (key l) (index_listeners prev [])) (is_among l prev)
          (known-index l prev [] ∙ no-others l (is_among l prev)))
        (detect_new-events prev ls (insert (key l) l current))
