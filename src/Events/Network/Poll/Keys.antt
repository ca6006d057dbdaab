-- ===== src/Events/Network/Poll/Keys.antt =====
-- The keys of two listeners are the same only if the listeners are.
use yomins_agent.Go.Text.{Bytes, cut, is_digit}
use yomins_agent.Go.Strconv.{digits_from}
use yomins_agent.Go.Strconv.Decimal.{format, format-All, digits_from-format, All}
use yomins_agent.Procfs.{around_last}
use yomins_agent.Procfs.Stat.{around_last-split, is_not}
use yomins_agent.Events.Network.{ListenEntry, Proto, proto_text}
use yomins_agent.Events.Network.ProcNet.{key}
use yomins_agent.Prelude.{ℕ, some, [], ◌∷◌, ◌++◌, ◌≡◌, refl, ap, sym, ◌∙◌, arith}

cut-proto :
    (p : Proto) (rest : Bytes) → cut b':' (proto_text p ++ b':' ∷ rest) ≡ some (proto_text p, rest)
unfolding cut proto_text
cut-proto Proto.tcp rest = refl
cut-proto Proto.tcp6 rest = refl

proto_text-injective : (p q : Proto) → proto_text p ≡ proto_text q → p ≡ q
unfolding proto_text
proto_text-injective Proto.tcp Proto.tcp e = refl
proto_text-injective Proto.tcp Proto.tcp6 e = absurd (ground arith)
proto_text-injective Proto.tcp6 Proto.tcp e = absurd (ground arith)
proto_text-injective Proto.tcp6 Proto.tcp6 e = refl

digits-no_colon : (s : Bytes) → All is_digit s → All (is_not b':') s
unfolding is_digit
digits-no_colon [] h = tt
digits-no_colon (c ∷ s) (h, hs) = (ground arith, digits-no_colon s hs)

format-injective : (m n : ℕ) → format m ≡ format n → m ≡ n
format-injective m n e =
    let same = sym (digits_from-format m) ∙ ap (digits_from 0) e ∙ digits_from-format n in
    ground arith

-- The parts of a key.
abbrev rest_of : ListenEntry → Bytes
rest_of e = e.local_ip ++ b':' ∷ format e.local_port

cut-key : (e : ListenEntry) → cut b':' (key e) ≡ some (proto_text e.proto, rest_of e)
unfolding key
cut-key e = cut-proto e.proto (rest_of e)

around_last-rest :
    (e : ListenEntry) → around_last b':' (rest_of e) ≡ some (e.local_ip, format e.local_port)
around_last-rest e =
    around_last-split b':' e.local_ip (format e.local_port)
      (digits-no_colon (format e.local_port) (format-All e.local_port))

pub key-injective : (e f : ListenEntry) → key e ≡ key f → e ≡ f
key-injective e f same =
    let parts = sym (cut-key e) ∙ ap (cut b':') same ∙ cut-key f in
    let rests : rest_of e ≡ rest_of f = ground arith in
    let tails = sym (around_last-rest e) ∙ ap (around_last b':') rests ∙ around_last-rest f in
    let proto = proto_text-injective e.proto f.proto (ground arith) in
    let port = format-injective e.local_port f.local_port (ground arith) in ground arith
