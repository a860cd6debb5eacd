-- ===== src/Filter.antt =====
-- The results of the repositories' queries: repos/BaseFilter.go.
use holvit_backend.Prelude.{
  ℕ, List, [], ◌∷◌, Bool, true, false, ltb, if◌then◌else◌, Option, none, some,
}
use holvit_backend.Go.{Outcome, done, panicked, plain_error, unwrap}

-- An `int`: `negsuc n` is -(n + 1).
pub data ℤ : Type 0 where
  pos : ℕ → ℤ
  negsuc : ℕ → ℤ

-- `pagedResult`
pub record PagedResult {ℓ} (T : Type ℓ) : Type ℓ where
  pub values : List T
  pub total_count : ℤ

-- The column that `BaseFilter.CountCol` selects: the count of all rows where the query is paged,
-- and -1 where it is not. A `Find` method keeps what the last row held, and 0 for no rows.
abbrev pub count_col : Bool → ℕ → ℤ
count_col paged n = if paged then pos n else negsuc 0

abbrev pub scan_total {ℓ} : {T : Type ℓ} → Bool → ℕ → List T → ℤ
scan_total paged n [] = pos 0
scan_total paged n (_ ∷ _) = count_col paged n

-- `NewPagedResult` of the rows of a query with `n` rows before paging
abbrev pub paged_result {ℓ} : {T : Type ℓ} → Bool → ℕ → List T → PagedResult T
paged_result paged n rows = record { values = rows; total_count = scan_total paged n rows }

-- `n > 0`
abbrev pub is_positive : ℤ → Bool
is_positive (pos n) = ltb 0 n
is_positive (negsuc n) = false

module _ {ℓ} {T : Type ℓ} where
  -- `FirstOrNone`
  abbrev pub first_or_none : List T → Option T
  first_or_none [] = none
  first_or_none (v ∷ _) = some v

  -- `SingleOrNone`
  abbrev pub single_or_none : List T → Outcome (Option T)
  single_or_none [] = done none
  single_or_none (v ∷ []) = done (some v)
  single_or_none (v ∷ w ∷ _) = panicked (plain_error "too many values")

  -- `Single`
  abbrev pub single : List T → Outcome T
  single [] = unwrap none
  single (v ∷ []) = done v
  single (v ∷ w ∷ _) = panicked (plain_error "too many values")

  -- `Any`
  abbrev pub any : List T → Bool
  any [] = false
  any (_ ∷ _) = true
