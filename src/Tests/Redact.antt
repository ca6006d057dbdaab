-- ===== src/Tests/Redact.antt =====
-- internal/logs/redact.go on a test card number, and ship.go's encode on a parser that tries to
-- set the message.
use yomins_agent.Go.Text.{Bytes, codes, bytes_eq}
use yomins_agent.Prelude.{◌≡◌, refl, true, [], ◌∷◌}
use yomins_agent.Logs.Redact.{luhn, mask_card}
use yomins_agent.Logs.Types.{Entry}
use yomins_agent.Tests.Logs.{plain}

card : luhn (codes "4111111111111111") ≡ true
unfolding luhn
card = refl

masked : mask_card (codes "4111 1111-1111 1111") ≡ codes "***"
unfolding mask_card
masked = refl

kept : mask_card (codes "4111 1111-1111 1112") ≡ codes "4111 1111-1111 1112"
unfolding mask_card
kept = refl

abbrev starred : Bytes → Bytes
starred s = codes "***"

abbrev forged : Entry
forged = record (plain (codes "GET /")) {
  fields = (codes "_msg", codes "forged") ∷ (codes "status", codes "200") ∷ [];
}
