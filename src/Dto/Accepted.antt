-- ===== src/Dto/Accepted.antt =====
-- What an accepted body holds.
use nestjs_api_starter.Prelude.{
  ◌≤◌, ◌≡◌, refl, sym, ap, ◌∙◌, inl, inr, Bool, true, String, List, [], ◌∷◌, every, IsIn, length,
  and-both, every-IsIn, Bool-cases, arith,
}
use nestjs_api_starter.Effects.{ok, err-ne-ok}
use nestjs_api_starter.Json.{
  Text, Json, undefined, null, bool, number, str, arr, obj, Fields, end, field, units,
}
use nestjs_api_starter.Names.{role_name_pattern, permission_name_pattern}
use nestjs_api_starter.Names.Parts.{
  IsWord, IsPair, IsWord-IsPlain, IsPair-IsPlain, role_name_pattern-IsWord,
  permission_name_pattern-IsPair,
}
use nestjs_api_starter.Seed.{check_names}
use nestjs_api_starter.Dto.{
  Rule, is_string, max_length, min_length, matches, required, Dto, lookup, holds, is_known, passes,
  ValidationPipe, create_permission_dto, create_role_dto, register_dto, login_dto,
}

module _ (pipe : ValidationPipe) where
  abbrev holds_all : List Rule → Json → Bool
  holds_all rules value =
      every (λ rule. holds pipe.is_address pipe.is_unique pipe.length_of rule value) rules

  -- A value that passes a list of rules with `@IsString`.
  string_holds :
      (rules : List Rule) (value : Json)
      → holds_all (is_string ∷ rules) value ≡ true
      → (t : Text) × (value ≡ str t) × (holds_all rules (str t) ≡ true)
  string_holds rules (str t) e = (t, refl, e)
  string_holds rules undefined e = absurd (ground arith)
  string_holds rules null e = absurd (ground arith)
  string_holds rules (bool b) e = absurd (ground arith)
  string_holds rules (number n) e = absurd (ground arith)
  string_holds rules (arr items) e = absurd (ground arith)
  string_holds rules (obj fs) e = absurd (ground arith)

  accepted :
      (dto : Dto) (body : Fields)
      → pipe.accepts dto body ≡ true
      → every (passes pipe.is_address pipe.is_unique pipe.length_of body) dto ≡ true
  accepted dto body e =
      (and-both (is_known pipe.is_address pipe.is_unique pipe.length_of dto body) _
        (sym (pipe.accepts_law dto body) ∙ e)).1

  -- a required property
  required_holds :
      (dto : Dto) (body : Fields) (name : Text) (rules : List Rule)
      → pipe.accepts dto body ≡ true
      → IsIn (required name rules) dto
      → holds_all rules (lookup name body) ≡ true
  required_holds dto body name rules e i =
      every-IsIn (passes pipe.is_address pipe.is_unique pipe.length_of body) (required name rules)
        dto (accepted dto body e) i

  -- The body of an accepted request to create a role has a name of 2 to 50 lowercase letters,
  -- digits and dashes.
  pub create_role_dto-IsWord :
      (body : Fields)
      → pipe.accepts create_role_dto body ≡ true
      → (t : Text) × (lookup (units "name") body ≡ str t)
        × (2 ≤ length t)
        × (length t ≤ 50)
        × IsWord t
  unfolding create_role_dto
  create_role_dto-IsWord body e =
      let (t, is_t, h) =
        string_holds (min_length 2 ∷ max_length 50 ∷ matches role_name_pattern ∷ [])
          (lookup (units "name") body)
          (required_holds create_role_dto body (units "name") _ e (inl refl)) in
      let word = (role_name_pattern-IsWord t).0 (ground arith) in
      let measured = pipe.length_law t (IsWord-IsPlain t word) in
      (t, is_t, ground (arith, measured), ground (arith, measured), word)

  -- The body of an accepted request to create a permission has a name of at most 100 units, which
  -- is two non-empty words of lowercase letters, digits and dashes with a colon between them.
  pub create_permission_dto-IsPair :
      (body : Fields)
      → pipe.accepts create_permission_dto body ≡ true
      → (t : Text) × (lookup (units "name") body ≡ str t) × (length t ≤ 100) × IsPair t
  unfolding create_permission_dto
  create_permission_dto-IsPair body e =
      let (t, is_t, h) =
        string_holds (max_length 100 ∷ matches permission_name_pattern ∷ [])
          (lookup (units "name") body)
          (required_holds create_permission_dto body (units "name") _ e (inl refl)) in
      let pair = (permission_name_pattern-IsPair t).0 (ground arith) in
      let measured = pipe.length_law t (IsPair-IsPlain t pair) in
      (t, is_t, ground (arith, measured), pair)

  -- Whoever can register can log in: if the body of a registration is accepted, so is the body of a
  -- login with the same address and password.
  pub register_dto-login_dto :
      (body : Fields)
      → pipe.accepts register_dto body ≡ true
      → pipe.accepts login_dto (
          field
            (units "email")
            (lookup (units "email") body)
            (field (units "password") (lookup (units "password") body) end))
        ≡ true
  unfolding register_dto login_dto units
  register_dto-login_dto body e =
      let address = required_holds register_dto body (units "email") _ e (inl refl) in
      let password = required_holds register_dto body (units "password") _ e (inr (inl refl)) in
      pipe.accepts_law login_dto (
        field (units "email") (lookup (units "email") body)
          (field (units "password") (lookup (units "password") body) end))
      ∙ ground arith

  pattern_of_checked :
      (names : List String) (name : String)
      → check_names names ≡ ok tt
      → IsIn name names
      → permission_name_pattern (units name) ≡ true
  pattern_of_checked [] name e i = absurd i
  pattern_of_checked (x ∷ xs) name e i = elim (Bool-cases (permission_name_pattern (units x))) [
    | inr fails ↦ absurd (err-ne-ok (rw fails at e))
    | inl holds ↦ elim i [
      | inl same ↦ ap (λ y. permission_name_pattern (units y)) (sym same) ∙ holds
      | inr j ↦ pattern_of_checked xs name (rw holds at e) j
    ]
  ]

  -- The seed and the API agree on names: a list of names that the seed's check passes consists of
  -- names that are accepted in a request to create a permission, if they have 100 units at most.
  pub check_names-accepts :
      (names : List String) (name : String)
      → check_names names ≡ ok tt
      → IsIn name names
      → length (units name) ≤ 100
      → pipe.accepts create_permission_dto (field (units "name") (str (units name)) end) ≡ true
  unfolding create_permission_dto units
  check_names-accepts names name e i short =
      let pattern = pattern_of_checked names name e i in
      let pair = (permission_name_pattern-IsPair (units name)).0 pattern in
      let measured = pipe.length_law (units name) (IsPair-IsPlain (units name) pair) in
      pipe.accepts_law create_permission_dto (field (units "name") (str (units name)) end)
      ∙ ground arith
