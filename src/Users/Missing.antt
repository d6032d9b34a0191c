-- ===== src/Users/Missing.antt =====
-- The methods on a user that does not exist.
use nestjs_api_starter.Prelude.{ℕ, String, ◌≡◌, refl, Option, none}
use nestjs_api_starter.Effects.{ok, err, http, not_found}
use nestjs_api_starter.Directory.{Directory}
use nestjs_api_starter.Users.{
  UpdateUserDto, find_by_id, get_current_user, update_current_user, update_user, deactivate_user,
  ensure_user_exists,
}

module _ (d : Directory) (id : String) (now : ℕ) (s : d.State) where
  ensure_user_exists-missing :
      find_by_id d id s ≡ ok none
      → ensure_user_exists d id s ≡ (err (http not_found "User not found."), s)
  unfolding ensure_user_exists
  ensure_user_exists-missing e = rw (ensure_user_exists, e) refl

  -- A method that is called with the id of no user answers 404 and changes nothing, whatever it was
  -- to change.
  pub find_by_id-missing :
      (name : Option String) (input : UpdateUserDto)
      → find_by_id d id s ≡ ok none
      → (get_current_user d id s ≡ (err (http not_found "User not found."), s))
        × (update_current_user d id name now s ≡ (err (http not_found "User not found."), s))
        × (update_user d id input now s ≡ (err (http not_found "User not found."), s))
        × (deactivate_user d id now s ≡ (err (http not_found "User not found."), s))
  unfolding get_current_user update_current_user update_user deactivate_user
  find_by_id-missing name input e = (
    rw e refl,
    rw (ensure_user_exists-missing e) refl,
    rw (ensure_user_exists-missing e) refl,
    rw (ensure_user_exists-missing e) refl,
  )
