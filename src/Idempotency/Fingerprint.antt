-- ===== src/Idempotency/Fingerprint.antt =====
-- `stableStringify` of src/idempotency/idempotency.interceptor.ts: JSON with sorted object keys.
-- `JSON.stringify` of a string, and the default order of `Array.prototype.sort`, are those of
-- ECMAScript, over UTF-16 code units.
pub mod Order
pub mod Stable
use nestjs_api_starter.Prelude.{
  ℕ, ◌+◌, ◌/◌, ◌%◌, Bool, true, false, ◌&&◌, ◌||◌, List, [], ◌∷◌, ◌++◌, map, ltb, leb, ◌==◌,
  if◌then◌else◌,
}
use nestjs_api_starter.Json.{
  Text, Json, undefined, null, bool, number, str, arr, obj, Items, nil, cons, Fields, end, field,
}

abbrev hex_digit : ℕ → ℕ
hex_digit d = if ltb d 10 then 48 + d else 87 + d

-- `\u` and four hexadecimal digits
abbrev unicode_escape : ℕ → Text
unicode_escape c =
    92
    ∷ 117
    ∷ hex_digit (c / 4096 % 16)
    ∷ hex_digit (c / 256 % 16)
    ∷ hex_digit (c / 16 % 16)
    ∷ hex_digit (c % 16)
    ∷ []

abbrev is_high : ℕ → Bool
is_high c = leb 0xd800 c && ltb c 0xdc00

abbrev is_low : ℕ → Bool
is_low c = leb 0xdc00 c && ltb c 0xe000

abbrev starts_low : Text → Bool
starts_low [] = false
starts_low (c ∷ rest) = is_low c

-- one code unit, between the unit before it and the rest: a surrogate outside a pair is escaped
escape_unit : ℕ → ℕ → Text → Text
escape_unit before c rest =
    if c == 34
    then 92 ∷ 34 ∷ []
    else if c == 92
    then 92 ∷ 92 ∷ []
    else if c == 8
    then 92 ∷ 98 ∷ []
    else if c == 9
    then 92 ∷ 116 ∷ []
    else if c == 10
    then 92 ∷ 110 ∷ []
    else if c == 12
    then 92 ∷ 102 ∷ []
    else if c == 13
    then 92 ∷ 114 ∷ []
    else if ltb c 32
    then unicode_escape c
    else if is_high c
    then (if starts_low rest then c ∷ [] else unicode_escape c)
    else if is_low c
    then (if is_high before then c ∷ [] else unicode_escape c)
    else c ∷ []

escape : ℕ → Text → Text
escape before [] = []
escape before (c ∷ rest) = escape_unit before c rest ++ escape c rest

-- `JSON.stringify` of a string
unfoldable pub quote : Text → Text
unfolding escape escape_unit
quote s = 34 ∷ escape 0 s ++ 34 ∷ []

-- `.join(',')`
unfoldable pub join : List Text → Text
join [] = []
join (s ∷ []) = s
join (s ∷ rest) = s ++ 44 ∷ join rest

-- the order of `.sort()`
unfoldable pub leb_text : Text → Text → Bool
leb_text [] t = true
leb_text (c ∷ s) [] = false
leb_text (c ∷ s) (d ∷ t) = if ltb c d then true else if ltb d c then false else leb_text s t

unfoldable pub insert : Text → List Text → List Text
insert k [] = k ∷ []
insert k (j ∷ rest) = if leb_text k j then k ∷ j ∷ rest else j ∷ insert k rest

unfoldable pub sort : List Text → List Text
unfolding insert leb_text
sort [] = []
sort (k ∷ rest) = insert k (sort rest)

abbrev pub same_text : Text → Text → Bool
same_text s t = leb_text s t && leb_text t s

-- `value[key]` of an object whose values are already serialized
unfoldable pub value_of : Text → List (Text × Text) → Text
value_of k [] = []
value_of k ((j, v) ∷ rest) = if same_text k j then v else value_of k rest

abbrev pub keys_of : List (Text × Text) → List Text
keys_of [] = []
keys_of ((k, v) ∷ rest) = k ∷ keys_of rest

unfoldable pub entries : List (Text × Text) → List Text
unfolding sort quote value_of
entries fields = map (λ k. quote k ++ 58 ∷ value_of k fields) (sort (keys_of fields))

unfoldable mutual
  unfolding quote join entries

  pub stable_stringify : Json → Text
  stable_stringify undefined = 110 ∷ 117 ∷ 108 ∷ 108 ∷ []
  stable_stringify null = 110 ∷ 117 ∷ 108 ∷ 108 ∷ []
  stable_stringify (bool true) = 116 ∷ 114 ∷ 117 ∷ 101 ∷ []
  stable_stringify (bool false) = 102 ∷ 97 ∷ 108 ∷ 115 ∷ 101 ∷ []
  stable_stringify (number text) = text
  stable_stringify (str s) = quote s
  stable_stringify (arr items) = 91 ∷ join (stringify_items items) ++ 93 ∷ []
  stable_stringify (obj fields) = 123 ∷ join (entries (stringify_fields fields)) ++ 125 ∷ []

  pub stringify_items : Items → List Text
  stringify_items nil = []
  stringify_items (cons v rest) = stable_stringify v ∷ stringify_items rest

  pub stringify_fields : Fields → List (Text × Text)
  stringify_fields end = []
  stringify_fields (field k v rest) = (k, stable_stringify v) ∷ stringify_fields rest
