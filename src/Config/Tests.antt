-- ===== src/Config/Tests.antt =====
-- Configured values.
use nestjs_api_starter.Prelude.{◌≡◌, refl, none, some, [], ◌∷◌}
use nestjs_api_starter.Json.{units}
use nestjs_api_starter.Ttl.{trim_start, trim_end}
use nestjs_api_starter.Config.{split_commas, cors_origins, cors_origin, blocked, throttler}

cors_run :
    (cors_origins (some (units " http://a, ,http://b,")) ≡ units "http://a" ∷ units "http://b" ∷ [])
    × (cors_origin (some (cors_origins none)) ≡ blocked)
    × ((throttler none none).ttl ≡ 60000)
unfolding cors_origins split_commas trim_start trim_end units
cors_run = (refl, refl, refl)
