-- ===== src/Events/Network/ProcNet/Address.antt =====
-- An address as the kernel prints it in /proc/net/tcp, and what parse_addr makes of it.
use yomins_agent.Go.Text.{Bytes, cut}
use yomins_agent.Go.Hex.Upper.{
  upper_digit, upper_hex, upper_hex16, AllBytes, decode_hex-upper_hex, parse_hex16-upper_hex16,
}
use yomins_agent.Go.Net.{format_ip4, format_ip6}
use yomins_agent.Events.Network.{Proto}
use yomins_agent.Events.Network.ProcNet.{ip_text, decoded_text, with_port, parse_parts, parse_addr}
use yomins_agent.Prelude.{
  ℕ, ◌/◌, ◌%◌, ◌^◌, ◌<◌, some, [], ◌∷◌, ◌++◌, length, ◌≡◌, refl, ap, ap₂, ◌∙◌, arith,
}

-- The kernel of a little-endian machine prints each word of four bytes with the last one in front.
abbrev pub swap_words : Bytes → Bytes
swap_words (a ∷ b ∷ c ∷ d ∷ rest) = d ∷ c ∷ b ∷ a ∷ swap_words rest
swap_words _ = []

-- `%08X` of each word of the address and `%04X` of the port.
unfoldable pub kernel_addr : Bytes → ℕ → Bytes
kernel_addr address port = upper_hex (swap_words address) ++ b':' ∷ upper_hex16 port

cut-digit :
    (d : ℕ) (s : Bytes) (before after : Bytes)
    → d < 16
    → cut b':' s ≡ some (before, after)
    → cut b':' (upper_digit d ∷ s) ≡ some (upper_digit d ∷ before, after)
unfolding cut upper_digit
cut-digit d s before after h e = rw (e, cut) (ground arith)

cut-here : (rest : Bytes) → cut b':' (b':' ∷ rest) ≡ some ([], rest)
unfolding cut
cut-here rest = refl

cut-upper_hex :
    (bs rest : Bytes)
    → AllBytes bs
    → cut b':' (upper_hex bs ++ b':' ∷ rest) ≡ some (upper_hex bs, rest)
unfolding upper_hex
cut-upper_hex [] rest h = cut-here rest
cut-upper_hex (b ∷ bs) rest (h, hs) =
    cut-digit (b / 16) _ _ _ (omega arith)
      (cut-digit (b % 16) _ _ _ (omega arith) (cut-upper_hex bs rest hs))

parse_addr-printed :
    (proto : Proto) (memory : Bytes) (port : ℕ) (ip : Bytes)
    → AllBytes memory
    → port < 2 ^ 16
    → ip_text proto memory ≡ some ip
    → parse_addr proto (upper_hex memory ++ b':' ∷ upper_hex16 port) ≡ some (ip, port)
unfolding parse_addr
parse_addr-printed proto memory port ip h b e =
    ap (parse_parts proto) (cut-upper_hex memory (upper_hex16 port) h)
    ∙ ap₂ with_port (ap (decoded_text proto) (decode_hex-upper_hex memory h) ∙ e)
        (parse_hex16-upper_hex16 port b)

-- The four bytes of an IPv4 address in dotted decimal.
abbrev pub dotted : Bytes → Bytes
dotted (a ∷ b ∷ c ∷ d ∷ _) = format_ip4 a b c d
dotted _ = []

swap_words-AllBytes : (s : Bytes) → AllBytes s → AllBytes (swap_words s)
swap_words-AllBytes (a ∷ b ∷ c ∷ d ∷ rest) (p, (q, (r, (t, hs)))) =
    (t, (r, (q, (p, swap_words-AllBytes rest hs))))
swap_words-AllBytes _ h = tt

ip_text-four : (s : Bytes) → length s ≡ 4 → ip_text Proto.tcp (swap_words s) ≡ some (dotted s)
unfolding ip_text
ip_text-four (a ∷ b ∷ c ∷ d ∷ []) e = refl
ip_text-four _ e = absurd (omega arith)

ip_text-six : (s : Bytes) → length s ≡ 16 → ip_text Proto.tcp6 (swap_words s) ≡ some (format_ip6 s)
unfolding ip_text
ip_text-six (a0 ∷ a1 ∷ a2 ∷ a3 ∷ b0 ∷ b1 ∷ b2 ∷ b3 ∷ c0 ∷ c1 ∷ c2 ∷ c3 ∷ d0 ∷ d1 ∷ d2 ∷ d3 ∷ []) e =
    refl
ip_text-six _ e = absurd (omega arith)

-- Both kinds of address that the kernel prints are read back with the port: an IPv4 address as
-- dotted decimal, and an IPv6 address as the text of its sixteen bytes.
pub parse_addr-kernel_addr :
    (address : Bytes) (port : ℕ)
    → AllBytes address
    → port < 2 ^ 16
    → (length address ≡ 4
        → parse_addr Proto.tcp (kernel_addr address port) ≡ some (dotted address, port))
      × (length address ≡ 16
          → parse_addr Proto.tcp6 (kernel_addr address port) ≡ some (format_ip6 address, port))
unfolding kernel_addr ip_text
parse_addr-kernel_addr address port h b = (
  λ four.
      parse_addr-printed Proto.tcp (swap_words address) port (dotted address)
        (swap_words-AllBytes address h) b (ip_text-four address four),
  λ six.
      parse_addr-printed Proto.tcp6 (swap_words address) port (format_ip6 address)
        (swap_words-AllBytes address h) b (ip_text-six address six),
)
