-- ===== src/Events/System/Users/Quiet.antt =====
-- The ticks of pollPasswd on a file that does not change: when they fall silent, and the users
-- for which they never do.
use yomins_agent.Go.Text.{Bytes, bytes_eq, equal_iff, cut}
use yomins_agent.Go.Strconv.{atoi}
use yomins_agent.Go.Bufio.{scan_lines}
use yomins_agent.Events.System.{Config}
use yomins_agent.Events.System.Users.{
  Users, Watch, add_user, add_uid, add_fields, user_fields, add_users, all_match, passwd_equal,
  missing_from, or_zero, compare_users, poll_passwd, current_passwd_users,
}
use yomins_agent.Prelude.Int.{ℤ, pos, int_beq_iff}
use yomins_agent.Prelude.Map.{lookup, insert-Unique, Unique}
use yomins_agent.Prelude.Map.Keys.{HasKey, HasKey-back, head-HasKey, tail-HasKey}
use yomins_agent.Prelude.{
  ◌≡◌, refl, ap, sym, ◌∙◌, Bool, true, false, Option, none, some, List, [], ◌∷◌, arith, ℕ, length,
  inl, inr, Bool-cases, Option-cases,
}

-- The users that the file names.
abbrev pub users_of : Bytes → Users
users_of content = add_users (scan_lines content) []

add_uid-Unique :
    (name : Bytes) (uid : Option ℤ) (users : Users) → Unique users → Unique (add_uid name uid users)
add_uid-Unique name none users u = u
add_uid-Unique name (some uid) users u = insert-Unique name uid users u

add_fields-Unique :
    (fields : Option (Bytes × Bytes)) (users : Users)
    → Unique users
    → Unique (add_fields fields users)
add_fields-Unique none users u = u
add_fields-Unique (some (name, uid)) users u = add_uid-Unique name (atoi uid) users u

add_user-Unique : (line : Bytes) (users : Users) → Unique users → Unique (add_user line users)
unfolding add_user
add_user-Unique line users u =
    ground (arith, add_fields-Unique (user_fields (cut b':' line)) users u)

add_users-Unique :
    (lines : List Bytes) (users : Users) → Unique users → Unique (add_users lines users)
unfolding add_users
add_users-Unique [] users u = u
add_users-Unique (line ∷ lines) users u =
    add_users-Unique lines (add_user line users) (add_user-Unique line users u)

all_match-lookup :
    (a b : Users) (k : Bytes) (v : ℤ)
    → all_match a b ≡ true
    → lookup k a ≡ some v
    → or_zero (lookup k b) ≡ v
unfolding all_match lookup
all_match-lookup [] b k v h e = absurd (ground arith)
all_match-lookup ((j, w) ∷ a) b k v h e =
    ground (arith, equal_iff j k, int_beq_iff (or_zero (lookup j b)) w, all_match-lookup a b k v)

-- No user of uid 0 has gone.
abbrev pub RootsStay : Users → Users → Type 0
RootsStay a b = (k : Bytes) → lookup k a ≡ some (pos 0) → HasKey k b

equal-keys :
    (a b : Users) → passwd_equal a b ≡ true → RootsStay a b → (k : Bytes) → HasKey k a → HasKey k b
unfolding passwd_equal
equal-keys a b h roots k held = elim (Option-cases (lookup k a)) [
  | inl gone ↦ absurd (held gone)
  | inr (v, e) ↦ λ gone.
      roots k (e ∙ ap some (sym (all_match-lookup a b k v (ground arith) e) ∙ ap or_zero gone)) gone
]

passwd_equal-length : (a b : Users) → passwd_equal a b ≡ true → length a ≡ length b
unfolding passwd_equal
passwd_equal-length a b h = ground arith

pub missing_from-none :
    (known m : Users) → ((k : Bytes) → HasKey k m → HasKey k known) → missing_from known m ≡ []
unfolding missing_from
missing_from-none known [] sub = refl
missing_from-none known ((k, v) ∷ m) sub = elim (Option-cases (lookup k known)) [
  | inl gone ↦ absurd (sub k (head-HasKey k k v m ((equal_iff k k).1 refl)) gone)
  | inr (w, e) ↦
      rw (e, missing_from) (missing_from-none known m (λ j h. sub j (tail-HasKey j k v m h)))
]

-- What a tick does, with the users of the file and without the texts.
module _ (c : Config) (id : Bytes → Bytes) (now : ℕ) (written : Bool) where
  compare-events-none :
      (s : Watch) (current : Users)
      → ((k : Bytes) → HasKey k current → HasKey k s.snapshot)
      → ((k : Bytes) → HasKey k s.snapshot → HasKey k current)
      → (compare_users c id now written s (some current)).1 ≡ []
  unfolding compare_users
  compare-events-none s current new old =
      rw (missing_from-none s.snapshot current new, missing_from-none current s.snapshot old) refl

  compare-same :
      (s : Watch) (current : Users)
      → Unique s.snapshot
      → Unique current
      → passwd_equal s.snapshot current ≡ true
      → RootsStay s.snapshot current
      → (compare_users c id now written s (some current)).1 ≡ []
  compare-same s current u w same roots =
      let sub = equal-keys s.snapshot current same roots in
      compare-events-none s current
        (HasKey-back s.snapshot current u w (passwd_equal-length s.snapshot current same) sub) sub

  compare-state-same :
      (s : Watch) (current : Users)
      → passwd_equal s.snapshot current ≡ true
      → (compare_users c id now written s (some current)).0 ≡ s
  unfolding compare_users
  compare-state-same s current same = rw same refl

  compare-state-changed :
      (s : Watch) (current : Users)
      → passwd_equal s.snapshot current ≡ false
      → (compare_users c id now written s (some current)).0.snapshot ≡ current
  unfolding compare_users
  compare-state-changed s current changed = rw changed refl

  compare-current :
      (s : Watch) (current : Users)
      → s.snapshot ≡ current
      → (compare_users c id now written s (some current)).1 ≡ []
  compare-current s current e =
      compare-events-none s current (λ k h gone. h (ap (lookup k) (sym e) ∙ gone))
        (λ k h gone. h (ap (lookup k) e ∙ gone))

compare-settles :
    (c : Config) (id id' : Bytes → Bytes) (now now' : ℕ) (written written' : Bool) (s : Watch)
    (current : Users)
    → Unique s.snapshot
    → Unique current
    → RootsStay s.snapshot current
    → (compare_users c id' now' written'
        (compare_users c id now written s (some current)).0
        (some current)).1
      ≡ []
compare-settles c id id' now now' written written' s current u w roots =
    elim (Bool-cases (passwd_equal s.snapshot current)) [
      | inl same ↦
          rw (compare-state-same c id now written s current same)
            (compare-same c id' now' written' s current u w same roots)
      | inr changed ↦
          compare-current c id' now' written' (compare_users c id now written s (some current)).0
            current (compare-state-changed c id now written s current changed)
    ]

-- After a tick on a file that can be read, a tick on the same file gives no event, whatever the
-- times and the writes, as long as no user of uid 0 in the snapshot is missing from the file.
pub poll_passwd_settles :
    (c : Config) (id id' : Bytes → Bytes) (now now' : ℕ) (written written' : Bool) (content : Bytes)
    (s : Watch)
    → Unique s.snapshot
    → RootsStay s.snapshot (users_of content)
    → (poll_passwd c id' now' written'
        (some content)
        (poll_passwd c id now written (some content) s).0).1
      ≡ []
unfolding poll_passwd current_passwd_users
poll_passwd_settles c id id' now now' written written' content s u roots =
    compare-settles c id id' now now' written written' s (users_of content) u
      (add_users-Unique (scan_lines content) [] tt) roots
