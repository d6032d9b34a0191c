-- ===== src/Users/Listing.antt =====
-- The list of users, page by page.
use nestjs_api_starter.Prelude.{
  ℕ, zero, suc, ◌≤◌, ◌≡◌, ◌≢◌, refl, ap, sym, ◌∙◌, inl, inr, some, List, [], ◌∷◌, length, map,
  arith,
}
use nestjs_api_starter.Effects.{ok, ok_injective, err-ne-ok}
use nestjs_api_starter.Number.{nan, whole}
use nestjs_api_starter.Pagination.{
  PaginationInput, PaginationParams, PaginatedResponse, build_pagination_meta,
  get_pagination_params,
}
use nestjs_api_starter.Pagination.Params.{get_pagination_params-bounds}
use nestjs_api_starter.Pagination.Pages.{take, drop, index}
use nestjs_api_starter.Directory.{Directory, User}
use nestjs_api_starter.Users.{SafeUser, to_safe_user, find_many, paginated}

length-map : {A B : Type 0} (f : A → B) (xs : List A) → length (map f xs) ≡ length xs
length-map f [] = refl
length-map f (x ∷ xs) = ap (λ n. suc n) (length-map f xs)

length-take : {A : Type 0} (n : ℕ) (xs : List A) → length (take n xs) ≤ n
length-take zero xs = omega arith
length-take (suc n) [] = omega arith
length-take (suc n) (x ∷ xs) = let ih = length-take n xs in omega (arith, ih)

module _ (d : Directory) (query : PaginationInput) (s : d.State) where
  -- Whatever page and limit a client asks for, if neither is NaN then an answer has at most 100
  -- users, no more than its `limit`, and its `total` is the number of all users.
  pub find_many-bounds :
      (answer : PaginatedResponse SafeUser)
      → query.page ≢ some nan
      → query.limit ≢ some nan
      → find_many d query s ≡ ok answer
      → (limit : ℕ) × (answer.meta.limit ≡ whole limit)
        × (length answer.data_items ≤ limit)
        × (limit ≤ 100)
        × (answer.meta.total ≡ length (d.users s))
  unfolding find_many build_pagination_meta
  find_many-bounds answer page_number limit_number e =
      let (page, limit, is_params, p, p', l, l', skip) =
        get_pagination_params-bounds query page_number limit_number in
      let params = get_pagination_params query in
      elim (d.page_of_users_law (get_pagination_params query).skip
        (get_pagination_params query).take s) [
          | inl (ordered, all, found) ↦
              let rows : List User = take (index params.take) (drop (index params.skip) ordered) in
              let same : paginated d params (rows, length (d.users s)) ≡ answer =
                ok_injective (rw found at e) in
              let taken : index params.take ≡ limit =
                ap (λ (q : PaginationParams). index q.take) is_params in
              let count : length (map to_safe_user rows) ≡ length answer.data_items =
                ap (λ (a : PaginatedResponse SafeUser). length a.data_items) same in
              let few : length rows ≤ index params.take = length-take (index params.take) _ in
              (
                limit,
                ap (λ (a : PaginatedResponse SafeUser). a.meta.limit) (sym same)
                    ∙ ap (λ (q : PaginationParams). q.limit) is_params,
                omega (arith, few, taken, count, length-map to_safe_user rows),
                l',
                ap (λ (a : PaginatedResponse SafeUser). a.meta.total) (sym same),
              )
          | inr (x, failed) ↦ absurd (err-ne-ok (rw failed at e))
        ]
