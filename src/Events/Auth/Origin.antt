-- ===== src/Events/Auth/Origin.antt =====
-- internal/events/auth/collector.go: logins from an address that the user did not have before
-- (`checkNewIP`, `isPrivateIP` and the file auth_last_ip.json). `net.ParseIP` is the parameter
-- `parse_ip`.
use yomins_agent.Go.Text.{Bytes, codes, is_empty, equal, bytes_eq}
use yomins_agent.Events.Types.{Event, EventType, Category, Severity, Confidence}
use yomins_agent.Prelude.Map.{lookup, insert, lookup-insert}
use yomins_agent.Prelude.{
  ℕ, ◌≡◌, refl, ap, ◌∙◌, Bool, true, false, not, ◌&&◌, ◌||◌, Option, none, some, List, [], ◌∷◌,
  arith, leb, ◌==◌, if◌then◌else◌,
}
use yomins_agent.Events.Auth.{Config, Collector}
use yomins_agent.Events.Types.{no_actor, no_context, blank_event}

-- An address as `ParseIP` gives it; an IPv4-mapped one is a `v4`, for which `Contains` takes it.
pub data Address : Type 0 where
  v4 : ℕ → ℕ → ℕ → ℕ → Address
  v6 : List ℕ → Address

loopback_v6 : Bytes
loopback_v6 = 0 ∷ 0 ∷ 0 ∷ 0 ∷ 0 ∷ 0 ∷ 0 ∷ 0 ∷ 0 ∷ 0 ∷ 0 ∷ 0 ∷ 0 ∷ 0 ∷ 0 ∷ 1 ∷ []

-- Loopback, 10.0.0.0/8, 172.16.0.0/12 or 192.168.0.0/16.
unfoldable pub is_private_address : Address → Bool
unfolding loopback_v6 equal
is_private_address (v4 a b c d) =
    a == 127 || (a == 10 || ((a == 172 && (leb 16 b && leb b 31)) || (a == 192 && b == 168)))
is_private_address (v6 groups) = equal groups loopback_v6

unfoldable pub new_ip_event : Config → Bytes → ℕ → Bytes → Bytes → Bytes → Event
new_ip_event c id now user ip prev =
    record (blank_event c.host c.agent id now EventType.auth_login_new_ip Category.threat_activity
      Severity.warning) {
        confidence = Confidence.medium;
        actor = some (record no_actor { user = user; ip = ip });
        context = some (record no_context { remote_ip = prev; reason = codes "new_ip" });
        tags = codes "auth" ∷ codes "new_ip" ∷ [];
      }

-- `saveLastIPByUser`: `writes` says that the file system takes the new file.
save_last_ip : Config → Bool → List (Bytes × Bytes) → List (Bytes × Bytes) → List (Bytes × Bytes)
save_last_ip c writes m saved = if c.has_state_dir && writes then m else saved

-- The event for the address that the map held, if it held another.
moved_event : Config → Bytes → ℕ → Bytes → Bytes → Option Bytes → Option Event
moved_event c id now user ip none = none
moved_event c id now user ip (some prev) =
    if equal prev ip then none else some (new_ip_event c id now user ip prev)

-- A restart: `loadLastIPByUser` reads the file back.
unfoldable pub restart : Collector → Collector
restart s = record s { bf_tracker = []; last_ip_by_user = s.saved_last_ip }

moved_event_lem :
    (c : Config) (id user ip : Bytes) (now : ℕ) (prev : Option Bytes)
    → moved_event c id now user ip prev ≡ elim prev [
      | none ↦ none
      | some before ↦ if equal before ip then none else some (new_ip_event c id now user ip before)
    ]
unfolding moved_event
moved_event_lem c id user ip now none = refl
moved_event_lem c id user ip now (some before) = refl

module _ (parse_ip : Bytes → Option Address) where
  -- `isPrivateIP`.
  unfoldable pub is_private_ip : Bytes → Bool
  unfolding is_private_address
  is_private_ip ip = elim (parse_ip ip) [ none ↦ false | some a ↦ is_private_address a ]

  -- Whether the two tests at the head of `checkNewIP` let the address pass.
  unfoldable pub is_watched : Config → Bytes → Bool
  unfolding is_private_ip is_empty
  is_watched c ip = not (is_empty ip) && not (c.ignore_private_ip && is_private_ip ip)

  -- `checkNewIP`.
  unfoldable pub check_new_ip :
      Config → Bytes → Bool → Bytes → Bytes → ℕ → Collector → Collector × Option Event
  unfolding is_watched save_last_ip moved_event new_ip_event
  check_new_ip c id writes user ip now s =
      let m = insert user ip s.last_ip_by_user in
      if is_watched c ip
      then (
        record s { last_ip_by_user = m; saved_last_ip = save_last_ip c writes m s.saved_last_ip },
        moved_event c id now user ip (lookup user s.last_ip_by_user),
      )
      else (s, none)

-- A login that `parseRecord` made: its user, its address and its time, with the id for the event
-- and whether the file system takes a new file then.
pub record Login : Type 0 where
  pub user : Bytes
  pub ip : Bytes
  pub now : ℕ
  pub id : Bytes
  pub writes : Bool

module _ (parse_ip : Bytes → Option Address) (c : Config) where
  pub after_login : Login → Collector → Collector
  unfolding check_new_ip
  after_login l s = (check_new_ip parse_ip c l.id l.writes l.user l.ip l.now s).0

  unfoldable pub after_logins : List Login → Collector → Collector
  after_logins [] s = s
  after_logins (l ∷ ls) s = after_logins ls (after_login l s)

  -- The address of the last of these logins that is this user's and is watched, or `before`.
  unfoldable pub last_watched : Bytes → List Login → Option Bytes → Option Bytes
  last_watched user [] before = before
  last_watched user (l ∷ ls) before =
      last_watched user ls
        (if equal l.user user && is_watched parse_ip c l.ip then some l.ip else before)

  lookup-after_login :
      (user : Bytes) (l : Login) (s : Collector)
      → lookup user (after_login l s).last_ip_by_user ≡ (
          if equal l.user user && is_watched parse_ip c l.ip
          then some l.ip
          else lookup user s.last_ip_by_user)
  unfolding after_login check_new_ip
  lookup-after_login user l s = ground (arith, lookup-insert l.user user l.ip s.last_ip_by_user)

  lookup-after_logins :
      (user : Bytes) (ls : List Login) (s : Collector)
      → lookup user (after_logins ls s).last_ip_by_user
        ≡ last_watched user ls (lookup user s.last_ip_by_user)
  unfolding after_logins last_watched
  lookup-after_logins user [] s = refl
  lookup-after_logins user (l ∷ ls) s =
      lookup-after_logins user ls (after_login l s)
      ∙ ap (last_watched user ls) (lookup-after_login user l s)

  -- After any logins, a login raises the new-address event exactly when its address is watched
  -- and the last watched login of the same user, or what the file held, had another address; the
  -- event names that other address.
  pub check_new_ip_remembers :
      (ls : List Login) (l : Login) (s : Collector)
      → (check_new_ip parse_ip c l.id l.writes l.user l.ip l.now (after_logins ls s)).1 ≡ (
          if is_watched parse_ip c l.ip
          then elim (last_watched l.user ls (lookup l.user s.last_ip_by_user)) [
            | none ↦ none
            | some before ↦
                if equal before l.ip
                then none
                else some (new_ip_event c l.id l.now l.user l.ip before)
          ]
          else none)
  unfolding check_new_ip
  check_new_ip_remembers ls l s = ground (
    arith,
    moved_event_lem c l.id l.user l.ip l.now (lookup l.user (after_logins ls s).last_ip_by_user),
    lookup-after_logins l.user ls s,
  )

  -- Every write of these logins succeeds.
  abbrev pub Written : List Login → Type 0
  Written [] = Unit
  Written (l ∷ ls) = (l.writes ≡ true) × Written ls

  saved-after_logins :
      (ls : List Login) (s : Collector)
      → c.has_state_dir ≡ true
      → Written ls
      → s.saved_last_ip ≡ s.last_ip_by_user
      → (after_logins ls s).saved_last_ip ≡ (after_logins ls s).last_ip_by_user
  unfolding after_logins after_login check_new_ip save_last_ip
  saved-after_logins [] s d w e = e
  saved-after_logins (l ∷ ls) s d (w, ws) e =
      saved-after_logins ls (after_login l s) d ws (ground arith)

  same_memory :
      (l : Login) (s t : Collector)
      → s.last_ip_by_user ≡ t.last_ip_by_user
      → (check_new_ip parse_ip c l.id l.writes l.user l.ip l.now s).1
        ≡ (check_new_ip parse_ip c l.id l.writes l.user l.ip l.now t).1
  unfolding check_new_ip
  same_memory l s t e = ground (arith, ap (lookup l.user) e)

  -- With a state directory whose writes succeed, a restart of the agent between two logins
  -- changes nothing for the second one: it raises the event that it would have raised.
  pub restart_remembers :
      (ls : List Login) (l : Login) (s : Collector)
      → c.has_state_dir ≡ true
      → Written ls
      → s.saved_last_ip ≡ s.last_ip_by_user
      → (check_new_ip parse_ip c l.id l.writes l.user l.ip l.now (restart (after_logins ls s))).1
        ≡ (check_new_ip parse_ip c l.id l.writes l.user l.ip l.now (after_logins ls s)).1
  unfolding restart
  restart_remembers ls l s d w e =
      same_memory l (restart (after_logins ls s)) (after_logins ls s)
        (saved-after_logins ls s d w e)
