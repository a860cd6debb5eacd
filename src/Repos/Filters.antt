-- ===== src/Repos/Filters.antt =====
-- The filters that every `Find` method takes: repos/BaseFilter.go.
use Prim.Native.Nat.{◌%◌, ◌^◌}
use holvit_backend.Prelude.{
  ℕ, ◌*◌, ◌-◌, suc, zero, String, str_append, [], ◌∷◌, Bool, Option, none, some, if◌then◌else◌, ltb,
}
use holvit_backend.Go.{Go, ◌>>◌, pure}
use holvit_backend.Filter.{ℤ, pos, negsuc}
use holvit_backend.Sqlb.Syntax.{string}
use holvit_backend.Sqlb.Select.{Method, add_order_by, set_limit, set_offset, number}
use holvit_backend.Repos.Database.{Value, int}

-- `SortInfo`, `PagingInfo`, `BaseFilter`
pub record SortInfo : Type 0 where
  pub field : String
  pub ascending : Bool

pub record PagingInfo : Type 0 where
  pub page_size : ℤ
  pub page_number : ℤ

pub record BaseFilter : Type 0 where
  pub id : Option ℕ
  pub paging_info : Option PagingInfo
  pub sort_info : Option SortInfo
  pub search_text : Option String

-- `BaseFilter{}` and `BaseFilter{Id: h.Some(id)}`
abbrev pub no_filter : BaseFilter
no_filter = record { id = none; paging_info = none; sort_info = none; search_text = none }

abbrev pub by_id : ℕ → BaseFilter
by_id id = record no_filter { id = some id }

-- `CountCol`
abbrev pub count_col : BaseFilter → String
count_col f = elim f.paging_info [ some _ ↦ "count(*) over()" | none ↦ "-1" ]

-- `PageSize * (PageNumber - 1)`
abbrev scaled : ℕ → ℤ → ℤ
scaled n (pos m) = pos (n * m)
scaled n (negsuc m) = if ltb 0 n then negsuc (n * suc m - 1) else pos 0

abbrev negated : ℤ → ℤ
negated (pos zero) = pos 0
negated (pos (suc n)) = negsuc n
negated (negsuc n) = pos (suc n)

abbrev predecessor : ℤ → ℤ
predecessor (pos zero) = negsuc 0
predecessor (pos (suc n)) = pos n
predecessor (negsuc n) = negsuc (suc n)

abbrev times : ℤ → ℤ → ℤ
times (pos n) m = scaled n m
times (negsuc n) m = negated (scaled (suc n) m)

-- An `int` of 64 bits: what an operation leaves of its result.
abbrev pub wrapped : ℤ → ℤ
wrapped (pos n) = let m = n % 2 ^ 64 in if ltb m (2 ^ 63) then pos m else negsuc (2 ^ 64 - 1 - m)
wrapped (negsuc n) = let m = n % 2 ^ 64 in if ltb m (2 ^ 63) then negsuc m else pos (2 ^ 64 - 1 - m)

abbrev pub page_offset : PagingInfo → ℤ
page_offset i = wrapped (times i.page_size (predecessor i.page_number))

-- `SortInfo.Apply`
unfoldable pub sort_by : SortInfo → Method Value
unfolding add_order_by
sort_by i =
    add_order_by (string (str_append i.field (if i.ascending then " asc" else " desc")) ∷ [])

-- `PagingInfo.Apply`
unfoldable pub page_by : PagingInfo → Method Value
unfolding set_limit set_offset
page_by i = do set_limit (number (int i.page_size)); set_offset (number (int (page_offset i)))

-- `Opt.IfSome`, around a call of a method
abbrev pub if_some : {S A : Type 0} → Option A → (A → Go S (Unit {0})) → Go S (Unit {0})
if_some none method = pure tt
if_some (some x) method = method x

unfoldable pub page_and_sort : BaseFilter → Method Value
unfolding sort_by page_by
page_and_sort f = do if_some f.paging_info page_by; if_some f.sort_info sort_by
