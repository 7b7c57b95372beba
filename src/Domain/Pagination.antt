-- ===== src/Domain/Pagination.antt =====
-- internal/domain/pagination.go: page numbers and sizes are Go's `int`, 64 bits wide.
use env_vault.Base.{
  ℕ, zero, suc, ◌-◌, ◌*◌, ◌%◌, ◌^◌, ◌≤◌, ◌<◌, ◌≡◌, refl, List, arith, ltb, if◌then◌else◌,
}
use env_vault.Base.Int.{ℤ, pos, negsuc, sub_ℕ}

pub record Pagination : Type 0 where
  pub page_num : ℤ
  pub page_size : ℤ

pub record PaginatedResult {ℓ} (T : Type ℓ) : Type ℓ where
  pub items : List T
  pub total : ℕ

abbrev pub default_page_size : ℕ
default_page_size = 20

abbrev pub max_page_size : ℕ
max_page_size = 100

-- p.PageNum < 1
at_least_one : ℤ → ℕ
at_least_one (pos zero) = 1
at_least_one (pos (suc n)) = suc n
at_least_one (negsuc n) = 1

-- p.PageSize <= 0, then p.PageSize > maxPageSize
clamp_size : ℤ → ℕ
clamp_size (pos zero) = default_page_size
clamp_size (pos (suc n)) = if ltb max_page_size (suc n) then max_page_size else suc n
clamp_size (negsuc n) = default_page_size

unfoldable pub normalize : Pagination → Pagination
unfolding at_least_one clamp_size
normalize p = record {
  page_num = pos (at_least_one p.page_num);
  page_size = pos (clamp_size p.page_size);
}

-- The value of a 64-bit pattern that is read as a signed integer.
unfoldable pub to_int64 : ℕ → ℤ
to_int64 n = let bits = n % 2 ^ 64 in if ltb bits (2 ^ 63) then pos bits else sub_ℕ bits (2 ^ 64)

unfoldable pub offset : Pagination → ℤ
unfolding at_least_one clamp_size to_int64
offset p = to_int64 ((at_least_one p.page_num - 1) * clamp_size p.page_size)

unfoldable pub limit : Pagination → ℤ
unfolding clamp_size
limit p = pos (clamp_size p.page_size)

clamp_size_bounds : (size : ℤ) → (1 ≤ clamp_size size) × (clamp_size size ≤ 100)
unfolding clamp_size
clamp_size_bounds (pos zero) = omega arith
clamp_size_bounds (pos (suc n)) = ground arith
clamp_size_bounds (negsuc n) = omega arith

to_int64_small : (n : ℕ) → n < 2 ^ 63 → to_int64 n ≡ pos n
unfolding to_int64
to_int64_small n h = ground arith

page_product_small : (n k : ℕ) → n < 2 ^ 56 → k ≤ 100 → n * k < 2 ^ 63
page_product_small n k h b = let m : n * k ≤ n * 100 = grind arith in omega (arith, m)

at_least_one_idem : (n : ℤ) → at_least_one (pos (at_least_one n)) ≡ at_least_one n
unfolding at_least_one
at_least_one_idem (pos zero) = refl
at_least_one_idem (pos (suc n)) = refl
at_least_one_idem (negsuc n) = refl

clamp_size_idem : (n : ℤ) → clamp_size (pos (clamp_size n)) ≡ clamp_size n
unfolding clamp_size
clamp_size_idem (pos zero) = refl
clamp_size_idem (pos (suc n)) = ground arith
clamp_size_idem (negsuc n) = refl

-- Whatever page is asked for, it has between 1 and 100 rows; and for a page number from 1 to 2^56
-- the offset is, with no overflow, the number of rows on the pages in front of it.
pub page_window :
    (n : ℕ) (size : ℤ)
    → n < 2 ^ 56
    → (r : ℕ) × (limit (record { page_num = pos (suc n); page_size = size }) ≡ pos r)
      × (1 ≤ r)
      × (r ≤ 100)
      × (offset (record { page_num = pos (suc n); page_size = size }) ≡ pos (n * r))
unfolding offset limit
page_window n size h =
    let (low, high) = clamp_size_bounds size in
    let one : suc n - 1 ≡ n = omega arith in
    (
      clamp_size size,
      refl,
      low,
      high,
      rw one (to_int64_small _ (page_product_small n (clamp_size size) h high)),
    )

-- Normalising a page a second time changes nothing, and neither its offset nor its limit depends
-- on whether it was normalised before.
pub normalize-normalize :
    (p : Pagination)
    → (normalize (normalize p) ≡ normalize p)
      × (offset (normalize p) ≡ offset p)
      × (limit (normalize p) ≡ limit p)
unfolding normalize offset limit
normalize-normalize p =
    let num = at_least_one_idem p.page_num in
    let size = clamp_size_idem p.page_size in (simp (num, size), simp (num, size), simp size)
