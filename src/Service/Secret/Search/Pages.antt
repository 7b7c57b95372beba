-- ===== src/Service/Secret/Search/Pages.antt =====
-- internal/service/secret_service.go, aggregateSecretsByProject and paginateSecrets: the pages.
use env_vault.Base.{
  ℕ, zero, suc, ◌+◌, ◌*◌, ◌^◌, ◌≤◌, ◌<◌, ◌≡◌, refl, sym, ap, ◌∙◌, List, [], ◌∷◌, map, length, take,
  drop, ltb, arith, ◌==◌, ok, if◌then◌else◌,
}
use env_vault.Base.Int.{ℤ, pos}
use env_vault.Domain.Pagination.{PaginatedResult, limit, page_window}
use env_vault.Service.Secret.{Secret, SecretCacheRecord}
use env_vault.Service.Secret.Search.{
  Groups, add_record, add_records, page_slice, aggregate_secrets_by_project,
}

-- A record opens one group or none.
length-add_record : (x : Secret) (gs : Groups) → length (add_record x gs) ≤ suc (length gs)
unfolding add_record
length-add_record x [] = omega arith
length-add_record x (((folder_code, key), g) ∷ gs) = ground (arith, length-add_record x gs)

length-add_records :
    (xs : List Secret) (gs : Groups) → length (add_records xs gs) ≤ length xs + length gs
unfolding add_records
length-add_records [] gs = omega arith
length-add_records (x ∷ xs) gs =
    omega (arith, length-add_records xs (add_record x gs), length-add_record x gs)

length-map : {A B : Type 0} (f : A → B) (xs : List A) → length (map f xs) ≡ length xs
length-map f [] = refl
length-map f (x ∷ xs) = ap suc (length-map f xs)

drop_past : {A : Type 0} (n : ℕ) (xs : List A) → length xs ≤ n → drop n xs ≡ []
drop_past zero [] h = refl
drop_past zero (x ∷ xs) h = absurd (omega (arith, h))
drop_past (suc n) [] h = refl
drop_past (suc n) (x ∷ xs) h = drop_past n xs (omega (arith, h))

take_none : {A : Type 0} (n : ℕ) → ok (take {A = A} n []) ≡ ok []
take_none zero = refl
take_none (suc n) = refl

-- A page that starts at the end or behind it is empty.
page_slice_past :
    {A : Type 0} (n limit : ℕ) (xs : List A) → length xs ≤ n → page_slice (pos n) limit xs ≡ ok []
unfolding page_slice
page_slice_past n limit xs h =
    let at_end : (if ltb (length xs) n then length xs else n) ≡ length xs = ground arith in
    let nothing : drop (length xs) xs ≡ [] = drop_past (length xs) xs (omega arith) in
    rw (at_end, nothing) (take_none _)

-- The search of a project asks the repository for a page and then cuts that page's groups by the
-- same page again: from the second page on nothing is left, whatever the repository returned, as
-- long as it kept to the page's limit; for pages up to the number 2 ^ 56.
pub later_pages_empty :
    (records : PaginatedResult SecretCacheRecord) (n : ℕ) (size : ℤ) (r : ℕ)
    → suc n < 2 ^ 56
    → limit (record { page_num = pos (suc (suc n)); page_size = size }) ≡ pos r
    → length records.items ≤ r
    → (total : ℕ) × (aggregate_secrets_by_project records
          (record { page_num = pos (suc (suc n)); page_size = size })
        ≡ ok (record { items = []; total = total }))
unfolding aggregate_secrets_by_project
later_pages_empty records n size r small limited kept =
    let all = map (λ g. g.1) (add_records (map (λ x. x.secret) records.items) []) in
    let (r', limited', low, high, from) = page_window (suc n) size small in
    let few : length all ≤ r = omega (
      arith,
      kept,
      length-map (λ g. g.1) (add_records (map (λ x. x.secret) records.items) []),
      length-add_records (map (λ x. x.secret) records.items) [],
      length-map (λ x. x.secret) records.items,
    ) in
    let same : pos r ≡ pos r' = sym limited ∙ limited' in
    let past : length all ≤ suc n * r' = grind arith in
    (
      if records.total == 0 then length all else records.total,
      rw (from, limited, page_slice_past (suc n * r') r all past) refl,
    )
