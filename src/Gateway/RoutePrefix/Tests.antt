-- ===== src/Gateway/RoutePrefix/Tests.antt =====
-- Prefixes and paths at concrete values.
use tube.Common.{◌≡◌, refl, some}
use tube.Common.Text.{codes, starts_with}
use tube.Gateway.RoutePrefix.{default_route_prefix, normalize_route_prefix, route_wildcard}

normalized :
    (normalize_route_prefix (some (codes " api//v2/ ")) ≡ codes "/api/v2")
    × (normalize_route_prefix (some (codes "//")) ≡ default_route_prefix)
unfolding normalize_route_prefix starts_with
normalized = (refl, refl)

wildcard : route_wildcard (codes "/api") ≡ codes "/api/*"
unfolding route_wildcard
wildcard = refl
