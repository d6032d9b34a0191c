-- ===== src/Config.antt =====
-- What the program computes from its configuration: the CORS origins of src/config/app.config.ts
-- and src/main.ts, and the rate limiter's settings in src/app.module.ts. A text is its UTF-16 code
-- units; an absent variable is `none`.
pub mod Origins
pub mod Throttle
pub mod Tests
use nestjs_api_starter.Prelude.{
  ℕ, ◌*◌, Bool, true, false, Option, none, some, List, [], ◌∷◌, map, keep, or_default, ◌==◌,
  if◌then◌else◌,
}
use nestjs_api_starter.Json.{Text, units}
use nestjs_api_starter.Ttl.{trim_start, trim_end}

abbrev pub push_head : ℕ → List Text → List Text
push_head c [] = (c ∷ []) ∷ []
push_head c (x ∷ xs) = (c ∷ x) ∷ xs

-- `.split(',')`
unfoldable pub split_commas : Text → List Text
split_commas [] = [] ∷ []
split_commas (c ∷ cs) =
    let rest = split_commas cs in if c == 44 then [] ∷ rest else push_head c rest

abbrev pub trim : Text → Text
trim o = trim_end (trim_start o)

-- `Boolean` of a string
abbrev pub is_filled : Text → Bool
is_filled [] = false
is_filled (c ∷ cs) = true

-- `process.env.CORS_ORIGINS`
unfoldable pub cors_origins : Option Text → List Text
cors_origins env = keep is_filled (map trim (split_commas (or_default env [])))

-- The option `origin` of `enableCors`: false, or a list.
pub data CorsOrigin : Type 0 where
  blocked : CorsOrigin
  only : List Text → CorsOrigin

abbrev pub origin_of : List Text → CorsOrigin
origin_of [] = blocked
origin_of (o ∷ os) = only (o ∷ os)

abbrev pub cors_origin : Option (List Text) → CorsOrigin
cors_origin configured = origin_of (or_default configured [])

pub record Throttler : Type 0 where
  pub ttl : ℕ
  pub limit : ℕ

abbrev pub throttler : Option ℕ → Option ℕ → Throttler
throttler ttl limit = record { ttl = or_default ttl 60 * 1000; limit = or_default limit 100 }

-- `startsWith`
abbrev pub begins_with : Text → Text → Bool
begins_with t [] = true
begins_with [] (p ∷ ps) = false
begins_with (c ∷ cs) (p ∷ ps) = let rest = begins_with cs ps in if c == p then rest else false

unfoldable pub skip_if : Option Text → Bool
skip_if url = begins_with (or_default url []) (units "/health")
