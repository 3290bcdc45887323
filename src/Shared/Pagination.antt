-- ===== src/Shared/Pagination.antt =====
-- src/shared/utils/pagination.util.ts, and the pages that a listing takes by it.
use campusgig_backend.Prelude.{
  ℕ, suc, ◌+◌, ◌-◌, ◌*◌, ◌/◌, ◌≤◌, ◌<◌, ltb, ◌≡◌, List, [], ◌++◌, Bool, length, take, drop, arith,
  take-all, take-drop, Bool-cases, inl, inr, ◌∙◌, zero,
}
use native.Mathlib.Nat.{lt-div-mul-add, le-div_iff_mul-le, div-lt_iff_lt-mul}

pub record PaginationMeta : Type 0 where
  pub current_page : ℕ
  pub items_per_page : ℕ
  pub total_items : ℕ
  pub total_pages : ℕ
  pub has_next_page : Bool
  pub has_previous_page : Bool

-- `Math.ceil(totalItems / limit)`
unfoldable pub total_pages_of : ℕ → ℕ → ℕ
total_pages_of limit total_items = (total_items + (limit - 1)) / limit

unfoldable pub calculate_pagination : ℕ → ℕ → ℕ → PaginationMeta
unfolding total_pages_of
calculate_pagination page limit total_items =
    let total_pages = total_pages_of limit total_items in
    record {
      current_page = page;
      items_per_page = limit;
      total_items = total_items;
      total_pages = total_pages;
      has_next_page = ltb page total_pages;
      has_previous_page = ltb 1 page;
    }

unfoldable pub get_skip : ℕ → ℕ → ℕ
get_skip page limit = (page - 1) * limit

zero_times : (n : ℕ) → 0 * n ≡ 0
zero_times n = omega arith

suc_times : (m n : ℕ) → suc m * n ≡ m * n + n
suc_times m n = omega arith

page_start : (n limit : ℕ) → get_skip (suc n) limit ≡ n * limit
unfolding get_skip
page_start n limit = let e : suc n - 1 ≡ n = omega arith in rw e

module _ {A : Type 0} where
  -- The rows of one page: `skip` and `take` on the rows in their order.
  unfoldable pub page_of : ℕ → ℕ → List A → List A
  unfolding get_skip
  page_of page limit xs = take limit (drop (get_skip page limit) xs)

  -- The first `n` pages, one after the other.
  unfoldable pub pages : ℕ → ℕ → List A → List A
  unfolding page_of
  pages zero limit xs = []
  pages (suc n) limit xs = pages n limit xs ++ page_of (suc n) limit xs

  pages-take : (n limit : ℕ) (xs : List A) → pages n limit xs ≡ take (n * limit) xs
  unfolding pages
  pages-take zero limit xs = rw (zero_times limit)
  pages-take (suc n) limit xs =
      rw (suc_times n limit, pages-take n limit xs, page_start n limit)
        (take-drop (n * limit) limit xs)

-- The last page reaches the last row.
total_pages_of-reaches : (limit total : ℕ) → 1 ≤ limit → total ≤ total_pages_of limit total * limit
unfolding total_pages_of
total_pages_of-reaches limit total h =
    let above : total + (limit - 1) < (total + (limit - 1)) / limit * limit + limit =
      lt-div-mul-add (omega (arith, h)) in
    omega (arith, above, h)

-- The pages up to `totalPages` hold every row of a listing, once and in order.
pub pages-all :
    {A : Type 0} (page limit : ℕ) (xs : List A)
    → 1 ≤ limit
    → pages (calculate_pagination page limit (length xs)).total_pages limit xs ≡ xs
unfolding calculate_pagination
pages-all page limit xs h =
    let reaches = total_pages_of-reaches limit (length xs) h in
    pages-take (total_pages_of limit (length xs)) limit xs
    ∙ take-all (total_pages_of limit (length xs) * limit) xs (omega (arith, reaches))

-- There is a next page exactly while rows are left behind this one.
pub calculate_pagination-next :
    (page limit total : ℕ)
    → 1 ≤ limit
    → (calculate_pagination page limit total).has_next_page ≡ ltb (get_skip (suc page) limit) total
unfolding calculate_pagination total_pages_of get_skip
calculate_pagination-next page limit total h =
    let product = suc_times page limit in
    rw (page_start page limit) (elim (Bool-cases (ltb (page * limit) total)) [
      | inl e ↦
          let below : page * limit < total = ground (arith, e) in
          let reached =
            (le-div_iff_mul-le {k = limit} {x = suc page} {y = total + (limit - 1)}
                (omega (arith, h))).1
              (omega (arith, product, below, h)) in
          rw e (ground (arith, reached))
      | inr e ↦
          let above : total ≤ page * limit = ground (arith, e) in
          let short : (total + (limit - 1)) / limit < suc page =
            (div-lt_iff_lt-mul {k = limit} {x = total + (limit - 1)} {y = suc page}
                (omega (arith, h))).1
              (omega (arith, product, above, h)) in
          rw e (ground (arith, short))
    ])
