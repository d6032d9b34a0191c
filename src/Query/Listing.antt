-- ===== src/Query/Listing.antt =====
-- GET /roles with its query, from the query string to the rows.
use mathlib.Core.Option
use nestjs_api_starter.Prelude.{
  ◌≡◌, refl, sym, ap, ◌∙◌, subst, Bool, true, false, Option, none, some, List, [], ◌∷◌, map, inl,
  inr, ◌⊎◌, ◌↔◌, IsIn, Bool-cases, arith, or_default, if◌then◌else◌,
}
use nestjs_api_starter.Effects.{ok, ok_injective, err-ne-ok}
use nestjs_api_starter.Json.{Text, units}
use nestjs_api_starter.JwtGuard.{same_units}
use nestjs_api_starter.Directory.{Directory, Role, by_name}
use nestjs_api_starter.Roles.{find_all_roles}
use nestjs_api_starter.Query.{
  Param, Query, QueryPipe, BooleanProperty, text, repeated, param, is_true, has_only, list_query,
  list_query_dto,
}

same_units-eq : (t u : Text) → same_units t u ≡ true → t ≡ u
same_units-eq [] [] e = refl
same_units-eq [] (d ∷ ds) e = absurd (ground arith)
same_units-eq (c ∷ cs) [] e = absurd (ground arith)
same_units-eq (c ∷ cs) (d ∷ ds) e =
    let head : c ≡ d = ground arith in
    let tail = same_units-eq cs ds (ground arith) in rw (head, tail) refl

same_units_refl : (t : Text) → same_units t t ≡ true
same_units_refl [] = refl
same_units_refl (c ∷ cs) = ground (arith, same_units_refl cs)

-- The query asks for inactive records: `includeInactive=true`.
abbrev pub Asks : Query → Type 0
Asks query = param (units "includeInactive") query ≡ some (text (units "true"))

flag-true :
    (o : Option Param)
    → (or_default (Option.map is_true o) false ≡ true) ↔ (o ≡ some (text (units "true")))
unfolding is_true
flag-true none = ((λ e. absurd (ground arith)), λ e. cc)
flag-true (some (text t)) = (
  (λ e. rw (same_units-eq t (units "true") e) refl),
  λ e. let same : t ≡ units "true" = cc in rw same (same_units_refl (units "true")),
)
flag-true (some (repeated ts)) = ((λ e. absurd (ground arith)), λ e. cc)

shown_iff :
    (flag active : Bool) (P : Type 0)
    → (flag ≡ true) ↔ P
    → ((if flag then true else active) ≡ true) ↔ ((active ≡ true) ⊎ P)
shown_iff true active P h = ((λ e. inr (h.0 refl)), λ e. refl)
shown_iff false active P h =
    ((λ e. inl e), λ e. elim e [ inl on ↦ on | inr p ↦ absurd (ground (arith, h.1 p)) ])

module _ (pipe : QueryPipe) where
  list_query-flag :
      (query : Query) (flag : Option Bool)
      → list_query pipe query ≡ some flag
      → flag ≡ Option.map is_true (param (units "includeInactive") query)
  unfolding list_query
  list_query-flag query flag e =
      elim (Bool-cases (has_only (map (λ (p : BooleanProperty). p.name) list_query_dto) query)) [
        | inl known ↦
            let read = rw (pipe.booleans_law list_query_dto query, known) at e in
            ap (λ o. or_default o flag) (sym read)
        | inr unknown ↦
            let read = rw (pipe.booleans_law list_query_dto query, unknown) at e in
            absurd (ground arith)
      ]

  -- GET /roles: for an accepted query, when the listing returns, it lists the roles of the table
  -- that are active, and all of them if and only if the query says includeInactive=true; every
  -- other value of the parameter means false.
  pub list_query-find_all_roles :
      (d : Directory) (query : Query) (flag : Option Bool) (s : d.State) (found : List Role)
      → list_query pipe query ≡ some flag
      → find_all_roles d (or_default flag false) s ≡ ok found
      → (role : Role)
      → IsIn role found ↔ (IsIn role (d.roles s) × ((role.is_active ≡ true) ⊎ Asks query))
  unfolding find_all_roles
  list_query-find_all_roles d query flag s found accepted listed role =
      let is_flag = list_query-flag query flag accepted in
      elim (d.find_roles_law by_name
        (λ role. if or_default flag false then true else role.is_active) s) [
          | inl (rows, e, exact) ↦
              let iff =
                shown_iff (or_default flag false) role.is_active (Asks query)
                  (rw is_flag (flag-true (param (units "includeInactive") query))) in
              let same : rows ≡ found = ok_injective (sym e ∙ listed) in
              (
                (λ i.
                    let (j, p) = (exact role).0 (subst (λ rs. IsIn role rs) (sym same) i) in
                    (j, iff.0 p)),
                (λ (j, p). subst (λ rs. IsIn role rs) same ((exact role).1 (j, iff.1 p))),
              )
          | inr (x, e) ↦ absurd (err-ne-ok (sym e ∙ listed))
        ]
