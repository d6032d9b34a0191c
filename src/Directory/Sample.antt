-- ===== src/Directory/Sample.antt =====
-- A small directory for the concrete runs: ann is an active admin, bob is deactivated.
use nestjs_api_starter.Prelude.{String, Bool, true, false, none, [], ◌∷◌}
use nestjs_api_starter.Directory.{User, Role, Permission}
use nestjs_api_starter.Directory.Tables.{Tables}

abbrev pub user : String → String → String → Bool → User
user id email hash active = record {
  id = id;
  email = email;
  password_hash = hash;
  name = none;
  is_active = active;
  created_at = 0;
  updated_at = 0;
}

abbrev pub role : String → String → Role
role id name = record {
  id = id;
  name = name;
  description = none;
  is_active = true;
  created_at = 0;
  updated_at = 0;
}

abbrev pub read_users : Permission
read_users = record {
  id = "p1";
  name = "users:read";
  description = none;
  is_active = true;
  created_at = 0;
  updated_at = 0;
}

abbrev pub sample : Tables
sample = record {
  users = user "u1" "ann@x" "#pw" true ∷ user "u2" "bob@x" "#pw" false ∷ [];
  roles = role "r1" "admin" ∷ role "r2" "user" ∷ [];
  permissions = read_users ∷ [];
  user_roles = ("u1", "r1") ∷ ("u2", "r1") ∷ [];
  role_permissions = ("r1", "p1") ∷ [];
}
