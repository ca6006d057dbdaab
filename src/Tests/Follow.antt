-- ===== src/Tests/Follow.antt =====
-- The allow list and the files that are followed, at concrete inputs.
use yomins_agent.Go.Text.{Bytes, codes, equal, is_empty, has_prefix}
use yomins_agent.Go.Path.{split_slashes, clean}
use yomins_agent.Go.Path.Clean.{NoneUp}
use yomins_agent.Go.Utf8.{runes, encode_latin}
use yomins_agent.Logs.Allow.{parts, matches, allowed}
use yomins_agent.Logs.Allow.Inside.{PlainByte, tree, BelowSome, allowed-below}
use yomins_agent.Logs.Positions.{load_positions}
use yomins_agent.Logs.Follow.{FileSpec, FileSystem, Opened, is_rotated_name, new_file_source}
use yomins_agent.Logs.Follow.Kept.{Keeps, Move, moves, new_file_source-Keeps}
use yomins_agent.Prelude.{true, false, none, some, List, [], ◌∷◌, ◌++◌, map, ◌≡◌, refl, arith, Each}

rotated : is_rotated_name (codes "/var/log/syslog.1") ≡ true
unfolding is_rotated_name is_empty equal
rotated = refl

live : is_rotated_name (codes "/var/log/syslog") ≡ false
unfolding is_rotated_name is_empty equal
live = refl

cleaned : clean (codes "/var/log/../../etc//shadow") ≡ codes "/etc/shadow"
unfolding clean is_empty has_prefix equal
cleaned = refl

abbrev places : List Bytes
places = codes "/var/log/" ∷ codes "/srv/" ∷ []

escape_refused : allowed (codes "/var/log/../../etc/shadow") (map tree places) ≡ false
unfolding allowed clean runes parts matches equal is_empty has_prefix encode_latin
escape_refused = refl

within_allowed : allowed (codes "/srv/x/../a.log") (map tree places) ≡ true
unfolding allowed clean runes parts matches equal is_empty has_prefix encode_latin
within_allowed = refl

places_plain : Each (λ d. Each PlainByte d) places
places_plain = ground arith

rooted : has_prefix (codes "/srv/x/../a.log") (codes "/") ≡ true
unfolding has_prefix
rooted = refl

allowed-below_example :
    BelowSome places (clean (codes "/srv/x/../a.log"))
    × NoneUp (split_slashes (clean (codes "/srv/x/../a.log")))
allowed-below_example =
    allowed-below places (codes "/srv/x/../a.log") places_plain rooted within_allowed

-- A byte above 127 in a glob stands for the two bytes of a rune, so the glob misses its own path.
accent_missed :
    allowed
      (codes "/srv/" ++ 195 ∷ 169 ∷ codes ".log")
      ((codes "/srv/" ++ 195 ∷ 169 ∷ codes ".log") ∷ [])
    ≡ false
unfolding allowed clean runes parts matches equal is_empty has_prefix encode_latin
accent_missed = refl

abbrev host_files : FileSystem
host_files = record {
  glob = λ g. codes "/srv/a.log" ∷ codes "/etc/shadow" ∷ [];
  stat = λ p. some (record { inode = 7; is_regular = true });
  open_file = λ p. Opened.opened 7 100;
  path_match = λ pattern p. false;
  container_of = λ p. none;
}

abbrev any_spec : FileSpec
any_spec = record {
  source = codes "custom";
  globs = codes "/*/*" ∷ [];
  exclude = [];
  docker_json = false;
  container = [];
}

new_file_source-Keeps_example : Keeps (map tree places) (
    moves
      (Move.scans host_files 20_000_000_000 ∷ [])
      (new_file_source (any_spec ∷ []) (map tree places) (load_positions true none) 5))
new_file_source-Keeps_example =
    new_file_source-Keeps (any_spec ∷ []) (map tree places) (load_positions true none) 5
      (Move.scans host_files 20_000_000_000 ∷ [])
