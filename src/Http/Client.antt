-- ===== src/Http/Client.antt =====
-- deployables/backend/internal/httpapi/ratelimit.go: the address that a request counts under.
use aime.Base.{
  ◌==◌, ℕ, Bool, true, false, ◌≡◌, refl, sym, ◌∙◌, Option, none, List, [], ◌∷◌, ◌++◌, if◌then◌else◌,
  arith,
}
use aime.Base.Lists.{exists}
use aime.Base.Bytes.{Bytes}
use aime.Config.{value_or}

-- `net.ParseIP` with `String`, the host of `net.SplitHostPort`, and `strings.TrimSpace`.
pub record Net : Type 0 where
  pub parse_ip : Bytes → Option Bytes
  pub split_host_port : Bytes → Option Bytes
  pub trim_space : Bytes → Bytes

abbrev pub comma : ℕ
comma = 44

abbrev pub is_comma : ℕ → Bool
is_comma c = c == comma

-- The last part of `strings.Split(xff, ",")`.
unfoldable pub last_hop : Bytes → Bytes
last_hop [] = []
last_hop (c ∷ cs) = let rest = last_hop cs in if exists is_comma (c ∷ cs) then rest else c ∷ cs

last_hop_alone : (s : Bytes) → exists is_comma s ≡ false → last_hop s ≡ s
unfolding last_hop
last_hop_alone [] h = refl
last_hop_alone (c ∷ cs) h = rw h refl

exists_comma : (a b : Bytes) → exists is_comma (a ++ (comma ∷ b)) ≡ true
exists_comma [] b = refl
exists_comma (c ∷ cs) b = ground (arith, exists_comma cs b)

-- The header with the hops before the last one.
abbrev pub header : List Bytes → Bytes → Bytes
header [] last = last
header (hop ∷ hops) last = hop ++ (comma ∷ header hops last)

last_hop-comma : (a b : Bytes) → last_hop (a ++ (comma ∷ b)) ≡ last_hop b
unfolding last_hop
last_hop-comma [] b = refl
last_hop-comma (c ∷ cs) b = rw (exists_comma (c ∷ cs) b) (last_hop-comma cs b)

last_hop-header :
    (hops : List Bytes) (last : Bytes)
    → exists is_comma last ≡ false
    → last_hop (header hops last) ≡ last
last_hop-header [] last h = last_hop_alone last h
last_hop-header (hop ∷ hops) last h =
    last_hop-comma hop (header hops last) ∙ last_hop-header hops last h

module _ (net : Net) where
  open net use {parse_ip, split_host_port, trim_space}

  -- The header that a trusted proxy extends; a header that is not there is empty.
  unfoldable pub forwarded : Bool → Bytes → Option Bytes
  forwarded false xff = none
  forwarded true [] = none
  forwarded true (c ∷ cs) = parse_ip (trim_space (last_hop (c ∷ cs)))

  unfoldable pub client_ip : Bool → Bytes → Bytes → Bytes
  client_ip trust_proxy xff remote_addr =
      value_or (value_or remote_addr (split_host_port remote_addr)) (forwarded trust_proxy xff)

  unforwarded : (xff : Bytes) → forwarded false xff ≡ none
  unfolding forwarded
  unforwarded xff = refl

  forwarded-header :
      (hops : List Bytes) (last : Bytes)
      → exists is_comma last ≡ false
      → parse_ip (trim_space []) ≡ none
      → forwarded true (header hops last) ≡ parse_ip (trim_space last)
  unfolding forwarded
  forwarded-header [] [] h empty = sym empty
  forwarded-header [] (c ∷ cs) h empty = rw (last_hop_alone (c ∷ cs) h) refl
  forwarded-header ([] ∷ hops) last h empty = rw (last_hop-header ([] ∷ hops) last h) refl
  forwarded-header ((c ∷ cs) ∷ hops) last h empty =
      rw (last_hop-header ((c ∷ cs) ∷ hops) last h) refl

  -- Where the empty text is no address: behind a trusted proxy the client's address is the last hop of
  -- the header, however many stand before it, or, if that hop is no address, the host of the peer, or
  -- the peer's whole address if it has no port. Without a trusted proxy the header plays no part.
  pub client_ip-LastHop :
      (hops : List Bytes) (last remote : Bytes)
      → exists is_comma last ≡ false
      → parse_ip (trim_space []) ≡ none
      → (client_ip true (header hops last) remote
          ≡ value_or (value_or remote (split_host_port remote)) (parse_ip (trim_space last)))
        × (client_ip false (header hops last) remote ≡ value_or remote (split_host_port remote))
  unfolding client_ip
  client_ip-LastHop hops last remote h empty =
      (rw (forwarded-header hops last h empty) refl, rw (unforwarded (header hops last)) refl)
