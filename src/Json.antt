-- ===== src/Json.antt =====
-- JavaScript values that are data: parsed request bodies, response bodies, JSON columns. A string
-- is its list of UTF-16 code units. A number is the text that `JSON.stringify` prints for it.
use Prim.Native.Char.{code}
use nestjs_api_starter.Prelude.{
  ℕ, ◌+◌, ◌-◌, ◌/◌, ◌%◌, String, Bool, List, [], ◌∷◌, ◌++◌, ltb, if◌then◌else◌,
}

abbrev pub Text : Type 0
Text = List ℕ

mutual
  pub data Json : Type 0 where
    undefined null : Json
    bool : Bool → Json
    number : Text → Json
    str : Text → Json
    arr : Items → Json
    obj : Fields → Json

  pub data Items : Type 0 where
    nil : Items
    cons : Json → Items → Items

  pub data Fields : Type 0 where
    end : Fields
    field : Text → Json → Fields → Fields

-- the UTF-16 code units of a code point
abbrev code_units : ℕ → Text
code_units c =
    if ltb c 0x10000
    then c ∷ []
    else (0xd800 + (c - 0x10000) / 0x400) ∷ (0xdc00 + (c - 0x10000) % 0x400) ∷ []

unfoldable pub units : String → Text
units String.[] = []
units (String.◌∷◌ c s) = code_units (code c) ++ units s
