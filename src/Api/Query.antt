-- ===== src/Api/Query.antt =====
-- What the handlers read off a request: handlers/api/utils.go.
use Prim.Native.Char.{code}
use holvit_backend.Prelude.{
  ℕ, zero, suc, ◌+◌, ◌*◌, ◌-◌, String, str_append, str_eq, List, [], ◌∷◌, Bool, true, false, ◌&&◌,
  Option, none, some, if◌then◌else◌, ltb, leb, ◌==◌,
}
use holvit_backend.Go.{Error, http_error, Outcome, done, panicked, Go, Result, ok, err, ◌>>=◌, lift}
use holvit_backend.Filter.{ℤ, pos, negsuc, single}
use holvit_backend.Repos.Database.{Database, after}
use holvit_backend.Repos.Filters.{SortInfo, PagingInfo, no_filter}
use holvit_backend.Repos.Realms.{Realm, find_realms}
use holvit_backend.Oidc.Endpoints.{HttpRequest}

-- `strconv.Atoi`: a sign or none and decimal digits, within the 64 bits of an `int`
unfoldable pub digits_from : ℕ → String → Option ℕ
digits_from n String.[] = some n
digits_from n (String.◌∷◌ c s) =
    let rest = digits_from (n * 10 + (code c - b'0')) s in
    if leb b'0' (code c) && leb (code c) b'9' then rest else none

abbrev pub digits : String → Option ℕ
unfolding digits_from
digits s = if str_eq s "" then none else digits_from 0 s

abbrev pub non_negative : Option ℕ → Option ℤ
non_negative none = none
non_negative (some n) = if ltb n 9223372036854775808 then some (pos n) else none

abbrev non_positive : Option ℕ → Option ℤ
non_positive none = none
non_positive (some zero) = some (pos 0)
non_positive (some (suc n)) = if ltb n 9223372036854775808 then some (negsuc n) else none

unfoldable pub atoi : String → Option ℤ
unfolding digits_from
atoi String.[] = none
atoi (String.◌∷◌ c s) =
    if code c == b'-'
    then non_positive (digits s)
    else if code c == b'+'
    then non_negative (digits s)
    else non_negative (digits (String.◌∷◌ c s))

-- `QuerySortOrder`
pub record QuerySortOrder : Type 0 where
  pub sort_field : String
  pub ascending : Bool

abbrev lookup : String → List (String × String) → Option String
lookup k [] = none
lookup k ((j, v) ∷ entries) = if str_eq k j then some v else lookup k entries

abbrev pub bad_request : String → Error
bad_request message = http_error 400 message

abbrev pub sort_by_field : String → Option String → Outcome SortInfo
sort_by_field sort_field (some mapped) = done (record { field = mapped; ascending = false })
sort_by_field sort_field none =
    panicked (bad_request (str_append "unsupported sort field '" (str_append sort_field "'")))

-- `MapAllowed`
abbrev pub map_allowed : List (String × String) → QuerySortOrder → Outcome SortInfo
map_allowed allowed q = sort_by_field q.sort_field (lookup q.sort_field allowed)

-- `ParseForm`, whose error is a panic here
abbrev pub parsed : {A : Type 0} → Result (Unit {0}) → Outcome A → Outcome A
parsed (ok u) next = next
parsed (err e) next = panicked e

-- `searchTextFromQuery`
abbrev pub search_text_from_query : HttpRequest → Outcome (Option String)
search_text_from_query r =
    parsed r.parse_form (done (if str_eq (r.form "q") "" then none else some (r.form "q")))

-- `sortFromQuery`
abbrev pub direction_of : String → String
direction_of dir = if str_eq dir "" then "asc" else dir

abbrev pub is_direction : String → Bool
is_direction dir = if str_eq dir "asc" then true else str_eq dir "desc"

abbrev pub sort_order : (sort_field sort_direction : String) → Option QuerySortOrder
sort_order sort_field sort_direction =
    if str_eq sort_field ""
    then none
    else some (record { sort_field = sort_field; ascending = str_eq sort_direction "asc" })

unfoldable pub sort_from_query : HttpRequest → Outcome (Option QuerySortOrder)
sort_from_query r =
    let direction = direction_of (r.form "dir") in
    parsed r.parse_form (
      if is_direction direction
      then done (sort_order (r.form "sort") direction)
      else panicked (bad_request "invalid query parameter 'dir', must be 'asc' or 'desc'"))

-- `pagingFromQuery`
abbrev or_bad_request : String → Option ℤ → Outcome ℤ
or_bad_request message none = panicked (bad_request message)
or_bad_request message (some n) = done n

abbrev page_size_of : String → Outcome ℤ
unfolding atoi
page_size_of text =
    if str_eq text ""
    then panicked (bad_request "page size parameter is required")
    else or_bad_request "invalid query parameter 'pageSize', must be an int" (atoi text)

abbrev page_of : String → Outcome ℤ
unfolding atoi
page_of text =
    or_bad_request "invalid query parameter 'page', must be an int"
      (atoi (if str_eq text "" then "1" else text))

unfoldable pub paging_from_query : HttpRequest → Outcome (Option PagingInfo)
unfolding atoi
paging_from_query r = parsed r.parse_form (
    after (page_size_of (r.form "pageSize")) λ page_size.
      after (page_of (r.form "page"))
        λ page. done (some (record { page_size = page_size; page_number = page })))

-- `getRequestRealm`
abbrev pub get_request_realm : {W : Type 0} → Database W → (realm_name : String) → Go W Realm
unfolding find_realms
get_request_realm db realm_name = do
  realms ← find_realms db (record { base = no_filter; name = some realm_name })
  lift (single realms.values)

-- `FindResponse`, as it is written
pub record FindResponse (T : Type 0) : Type 0 where
  pub total_count : ℤ
  pub rows : List T
