-- ===== src/Response/Pages.antt =====
-- The number of pages is the least that holds all items.
use native.Mathlib.Nat.{div-add-mod', mod-lt, mul-le-mul_right, div-le_of_le-mul, mul_comm, add-mul}
use arcana_cloud_go.Base.{
  ltb→lt, lt→ltb, ◌≢◌, ◌⊎◌, subst, ℕ, ◌+◌, ◌*◌, ◌/◌, ◌%◌, ◌≤◌, ◌<◌, ◌≡◌, refl, true, false, List,
  some, ltb, ◌==◌, ◌↔◌, arith, Bool-cases, inl, inr,
}
use arcana_cloud_go.Response.{PagedResponse, total_pages_of, page_info_of, new_paged_response}

items_split :
    (size total : ℕ)
    → 0 < size
    → (total / size * size + total % size ≡ total) × (total % size < size)
items_split size total pos = (div-add-mod' total size, mod-lt total pos)

le_or_lt : (a b : ℕ) → (a ≤ b) ⊎ (b < a)
le_or_lt a b = elim (Bool-cases (ltb b a)) [
  | inl less ↦ inr (ltb→lt b a less)
  | inr not_less ↦ inl (ground arith)
]

pages_hold : (size total n : ℕ) → 0 < size → total_pages_of size total ≤ n → total ≤ n * size
unfolding total_pages_of
pages_hold size total n pos h = elim (Bool-cases (ltb 0 (total % size))) [
  | inl part ↦
      let q : total / size + 1 ≤ n = rw part at h in
      let (e, l) = items_split size total pos in
      let m : (total / size + 1) * size ≤ n * size = mul-le-mul_right size q in
      omega (arith, add-mul (total / size) 1 size)
  | inr whole ↦
      let q : total / size ≤ n = rw whole at h in
      let (e, l) = items_split size total pos in
      let m : total / size * size ≤ n * size = mul-le-mul_right size q in
      let z : total % size ≡ 0 = ground arith in omega arith
]

pages_least : (size total n : ℕ) → 0 < size → total ≤ n * size → total_pages_of size total ≤ n
unfolding total_pages_of
pages_least size total n pos h =
    let (e, l) = items_split size total pos in
    let q : total / size ≤ n = div-le_of_le-mul size (rw (mul_comm size n) h) in
    elim (Bool-cases (ltb 0 (total % size))) [
      | inl part ↦
          let some_left : 0 < total % size = ltb→lt 0 (total % size) part in
          let not_all : total / size ≢ n = λ same.
            let here : n * size + total % size ≡ total =
              subst (λ k. k * size + total % size ≡ total) same e in
            omega arith in
          rw part (omega arith)
      | inr whole ↦ rw whole q
    ]

-- For a page size above 0, the response has a next page exactly if items remain beyond this page, and
-- a previous one exactly if the page is not the first; the pages hold all items, and no smaller number
-- of pages does.
pub page_info_exact :
    {T : Type 0} (items : List T) (page size total : ℕ)
    → 0 < size
    → (r : PagedResponse T) × (new_paged_response items page size total ≡ some r)
      × ((r.page_info.has_next ≡ true) ↔ (page * size < total))
      × ((r.page_info.has_prev ≡ true) ↔ (1 < page))
      × (total ≤ r.page_info.total_pages * size)
      × ((n : ℕ) → total ≤ n * size → r.page_info.total_pages ≤ n)
unfolding new_paged_response page_info_of
page_info_exact items page size total pos =
    let pages = total_pages_of size total in
    let big : (size == 0) ≡ false = ground arith in
    (
      record { items = items; page_info = page_info_of page size total },
      rw big refl,
      (
        λ next. elim (le_or_lt total (page * size)) [
          | inl fits ↦
              let few = pages_least size total page pos fits in
              let more = ltb→lt page pages next in omega arith
          | inr more ↦ more
        ],
        λ more. elim (le_or_lt pages page) [
          | inl few ↦
              let fits = pages_hold size total page pos few in
              let none_left : ⊥ = omega arith in absurd none_left
          | inr next ↦ lt→ltb page pages next
        ],
      ),
      (ltb→lt 1 page, lt→ltb 1 page),
      pages_hold size total pages pos (omega arith),
      λ n fits. pages_least size total n pos fits,
    )
