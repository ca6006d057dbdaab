-- ===== src/Events/System/Users/Renamed.antt =====
-- passwdEqual reads a missing user as uid 0, so a user of uid 0 under a new name is no change to it.
use yomins_agent.Go.Text.{bytes_eq}
use yomins_agent.Events.System.Users.{Users}
