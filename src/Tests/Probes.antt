-- ===== src/Tests/Probes.antt =====
-- The probe for readiness, and the address of a client behind a proxy.
use aime.Base.{ℕ, ◌+◌, Bool, Option, ◌≡◌, refl, true, false, none, some, [], ◌∷◌}
use aime.Base.Int.{pos, saturate, ◌-ℤ◌}
use aime.Base.Bytes.{Bytes, bytes}
use aime.Config.{value_or}
use aime.Http.World.{stop}
use aime.Store.Query.{exec}
use aime.Http.Health.{
  Request, Probe, Served, idle, request, served, refresh, ping, handle_ready, unprobed, seen,
  has_pinged, is_late, answer_of, Spaced, handle_ready-Spaced,
}
use aime.Http.Client.{Net, header, client_ip, client_ip-LastHop}
use aime.Tests.{world}

abbrev request_at : ℕ → Bool → Request
request_at now fails = record {
  now = pos now;
  after = pos (now + 100_000_000);
  fails = fails;
  later = [];
  base = world;
}

-- A ping that fails, a request half a second later, and one after two seconds.
abbrev first_request : Request
first_request = request_at 10_000_000_000 true

abbrev early_request : Request
early_request = request_at 10_500_000_000 false

abbrev late_request : Request
late_request = request_at 12_000_000_000 false

abbrev failed_probe : Probe
failed_probe = record { before = pos 10_000_000_000; behind = pos 10_100_000_000; failed = true }

early-Served : Served (served early_request (served first_request unprobed).0).0 (failed_probe ∷ [])
unfolding handle_ready refresh ping exec saturate ◌-ℤ◌
early-Served =
    request early_request (served first_request unprobed).0 (failed_probe ∷ [])
      (request first_request unprobed [] idle)

handle_ready-Spaced_example :
    let (s, w) =
      (served late_request (served early_request (served first_request unprobed).0).0).1 in
    (has_pinged late_request w ≡ is_late late_request.now (failed_probe ∷ []))
    × (s ≡ stop (answer_of (seen late_request w (failed_probe ∷ []))))
    × Spaced (seen late_request w (failed_probe ∷ []))
handle_ready-Spaced_example =
    handle_ready-Spaced (served early_request (served first_request unprobed).0).0
      (failed_probe ∷ []) late_request early-Served

-- A text of digits and dots is taken for an address.
abbrev parse_ip : Bytes → Option Bytes
parse_ip [] = none
parse_ip (c ∷ cs) = some (c ∷ cs)

abbrev net : Net
net = record { parse_ip = parse_ip; split_host_port = λ s. none; trim_space = λ s. s }

client_ip-LastHop_example :
    (client_ip net true
        (header (bytes "1.1.1.1" ∷ bytes "2.2.2.2" ∷ []) (bytes "3.3.3.3"))
        (bytes "9.9.9.9")
      ≡ value_or (value_or (bytes "9.9.9.9") none) (some (bytes "3.3.3.3")))
    × (client_ip net false
          (header (bytes "1.1.1.1" ∷ bytes "2.2.2.2" ∷ []) (bytes "3.3.3.3"))
          (bytes "9.9.9.9")
        ≡ value_or (bytes "9.9.9.9") none)
client_ip-LastHop_example =
    client_ip-LastHop net (bytes "1.1.1.1" ∷ bytes "2.2.2.2" ∷ []) (bytes "3.3.3.3")
      (bytes "9.9.9.9") refl refl
