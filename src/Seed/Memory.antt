-- ===== src/Seed/Memory.antt =====
-- Upserts on the tables in memory. The id of a created row is its key, and an upsert fails if a row
-- with another key has the id.
use nestjs_api_starter.Prelude.{
  String, ◌≡◌, ◌≢◌, refl, ap, ◌∙◌, ◌⊎◌, inl, inr, Bool, true, false, ◌&&◌, not, Option, none, some,
  List, [], ◌∷◌, IsIn, any, change, keep, str_eq, eq_iff, eq_refl, Bool-cases, arith, if◌then◌else◌,
}
use nestjs_api_starter.Effects.{Exception, ok, err, Tx, unique_violation}
use nestjs_api_starter.Prisma.Memory.{first, first-cases}
use nestjs_api_starter.Directory.{User, Role, Permission}
use nestjs_api_starter.Directory.Tables.{Tables, linked, set_roles}
use nestjs_api_starter.Directory.Memory.{directory}
use nestjs_api_starter.Seed.{Upserts, Upserted}

module _ {Row : Type 0} (key_of : Row → String) (key : String) (f : Row → Row)
    (mk : String → Row) where
  abbrev upsert_found : Option Row → List Row → Row × List Row
  upsert_found none rows = (mk key, mk key ∷ rows)
  upsert_found (some old) rows = (f old, change (λ x. str_eq (key_of x) key) f rows)

  abbrev upsert_row : List Row → Row × List Row
  upsert_row rows = upsert_found (first (λ x. str_eq (key_of x) key) rows) rows

  pub upsert_row-Upserted :
      (rows : List Row) → Upserted key_of key f mk rows (upsert_row rows).1 (upsert_row rows).0
  upsert_row-Upserted rows = elim (first-cases (λ x. str_eq (key_of x) key) rows) [
    | inl (e, h) ↦ rw e (inr (key, refl, refl, h))
    | inr (old, e, i, h) ↦ rw e (inl (old, i, (eq_iff (key_of old) key).0 h, refl, refl))
  ]

unlinked :
    (a x : String) (pairs : List (String × String))
    → linked (keep (λ p. if str_eq p.0 a then false else true) pairs) a x ≡ false
unlinked a x [] = refl
unlinked a x (p ∷ ps) = elim (Bool-cases (str_eq p.0 a)) [
  | inl e ↦ rw e (unlinked a x ps)
  | inr e ↦ rw (e, e) (unlinked a x ps)
]

pub linked-set_roles :
    (a x : String) (ids : List String) (pairs : List (String × String))
    → linked (set_roles a (some ids) pairs) a x ≡ any (λ id. str_eq id x) ids
linked-set_roles a x [] pairs = unlinked a x pairs
linked-set_roles a x (id ∷ ids) pairs = rw (eq_refl a, linked-set_roles a x ids pairs) refl

still_linked :
    (a b x : String) (pairs : List (String × String))
    → str_eq a b ≡ false
    → linked (keep (λ p. if str_eq p.0 a then false else true) pairs) b x ≡ linked pairs b x
still_linked a b x [] ne = refl
still_linked a b x (p ∷ ps) ne = elim (Bool-cases (str_eq p.0 a)) [
  | inl e ↦
      let apart : str_eq p.0 b ≡ false = ap (λ y. str_eq y b) ((eq_iff p.0 a).0 e) ∙ ne in
      rw (e, apart) (still_linked a b x ps ne)
  | inr e ↦ rw (e, still_linked a b x ps ne) refl
]

linked-others :
    (a b x : String) (ids : List String) (pairs : List (String × String))
    → str_eq a b ≡ false
    → linked (set_roles a (some ids) pairs) b x ≡ linked pairs b x
linked-others a b x [] pairs ne = still_linked a b x pairs ne
linked-others a b x (id ∷ ids) pairs ne = rw ne (linked-others a b x ids pairs ne)

abbrev upsert_permission :
    String → (Permission → Permission) → (String → Permission) → Tx Tables Permission
upsert_permission name f mk s =
    let (p, rows) = upsert_row (λ (x : Permission). x.name) name f mk s.permissions in
    ok (p, record s { permissions = rows })

abbrev id_taken : String → String → List Role → Bool
id_taken id name = any (λ x. str_eq x.id id && not (str_eq x.name name))

abbrev upsert_role : String → (Role → Role) → (String → Role) → List String → Tx Tables Role
upsert_role name f mk ids s =
    let (r, rows) = upsert_row (λ (x : Role). x.name) name f mk s.roles in
    if id_taken r.id name s.roles
    then err unique_violation
    else ok (
      r,
      record s { roles = rows; role_permissions = set_roles r.id (some ids) s.role_permissions },
    )

abbrev upsert_user : String → (User → User) → (String → User) → List String → Tx Tables User
upsert_user email f mk ids s =
    let (u, rows) = upsert_row (λ (x : User). x.email) email f mk s.users in
    ok (u, record s { users = rows; user_roles = set_roles u.id (some ids) s.user_roles })

id_apart :
    (x r : Role) (name : String) (rs : List Role)
    → id_taken r.id name rs ≡ false
    → IsIn x rs
    → x.name ≢ name
    → str_eq r.id x.id ≡ false
id_apart x r name [] e i ne = absurd i
id_apart x r name (y ∷ ys) e (inl same) ne = ground (
  arith,
  eq_iff r.id x.id,
  eq_iff y.id r.id,
  eq_iff y.name name,
  ap (λ (z : Role). z.id) same,
  ap (λ (z : Role). z.name) same,
  eq_refl r.id,
)
id_apart x r name (y ∷ ys) e (inr i) ne = id_apart x r name ys (ground arith) i ne

pub role_outcome :
    (name : String) (f : Role → Role) (mk : String → Role) (ids : List String) (s : Tables)
    → ((r : Role) × (s' : Tables) × (upsert_role name f mk ids s ≡ ok (r, s'))
        × Upserted (λ (x : Role). x.name) name f mk s.roles s'.roles r
        × (s'.permissions ≡ s.permissions)
        × ((p : String) → linked s'.role_permissions r.id p ≡ any (λ id. str_eq id p) ids)
        × ((x : Role) (p : String)
            → IsIn x s.roles
            → x.name ≢ name
            → linked s'.role_permissions x.id p ≡ linked s.role_permissions x.id p))
      ⊎ ((e : Exception) × (upsert_role name f mk ids s ≡ err e))
role_outcome name f mk ids s =
    let r = (upsert_row (λ (x : Role). x.name) name f mk s.roles).0 in
    let rows = (upsert_row (λ (x : Role). x.name) name f mk s.roles).1 in
    elim (Bool-cases (id_taken r.id name s.roles)) [
      | inl taken ↦ inr (unique_violation, rw taken refl)
      | inr free ↦ inl (
        r,
        record s { roles = rows; role_permissions = set_roles r.id (some ids) s.role_permissions },
        rw free refl,
        upsert_row-Upserted (λ (x : Role). x.name) name f mk s.roles,
        refl,
        λ p. linked-set_roles r.id p ids s.role_permissions,
        λ x p i ne.
            linked-others r.id x.id p ids s.role_permissions (id_apart x r name s.roles free i ne),
      )
    ]

abbrev pub upserts : Upserts directory
upserts = record {
  upsert_permission = upsert_permission;
  upsert_role = upsert_role;
  upsert_user = upsert_user;
  upsert_permission_law = λ name f mk s. inl (
    (upsert_row (λ (x : Permission). x.name) name f mk s.permissions).0,
    record s { permissions = (upsert_row (λ (x : Permission). x.name) name f mk s.permissions).1 },
    refl,
    upsert_row-Upserted (λ (x : Permission). x.name) name f mk s.permissions,
  );
  upsert_role_law = role_outcome;
  upsert_user_law = λ email f mk ids s.
      let u = (upsert_row (λ (x : User). x.email) email f mk s.users).0 in
      inl (
        u,
        record s {
          users = (upsert_row (λ (x : User). x.email) email f mk s.users).1;
          user_roles = set_roles u.id (some ids) s.user_roles;
        },
        refl,
        upsert_row-Upserted (λ (x : User). x.email) email f mk s.users,
        refl,
        refl,
        λ r p. refl,
        λ r. linked-set_roles u.id r ids s.user_roles,
      );
}
