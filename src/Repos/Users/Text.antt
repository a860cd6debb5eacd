-- ===== src/Repos/Users/Text.antt =====
-- The text of the query of `FindUsers`, repos/UserRepository.go, holds nothing of what is searched.
use Prim.Native.Char.{code}
use holvit_backend.Prelude.{
  ℕ, zero, suc, String, str_append, str_eq, List, [], ◌∷◌, ◌≡◌, refl, ap, sym, ◌∙◌, Bool, true,
  false, Option, none, some, length, if◌then◌else◌, Bool-cases, inl, inr, arith,
}
use holvit_backend.Go.{Outcome, done, panicked, ◌>>◌, pure}
use holvit_backend.Sqlb.Syntax.{
  raw_query, Any, string, value, no_params, no_fragments, fragment, SelectQuery,
}
use holvit_backend.Sqlb.Fragment.{make_raw_fragment, make_raw_fragments}
use holvit_backend.Sqlb.Build.{Token}
use holvit_backend.Sqlb.Select.{
  Selection, Method, new_selection, select_from, to_query, add_from, add_where, add_order_by,
  set_limit, set_offset, number,
}
use holvit_backend.Sqlb.Text.{erase_select, erase_raw}
use holvit_backend.Sqlb.Text.Queries.{select_text, erased_text}
use holvit_backend.Sqlb.Text.Methods.{
  Follows, Follows-then, Follows-skip, Follows-where, Follows-from, Follows-order_by, Follows-limit,
  Follows-offset, erase_selection,
}
use holvit_backend.Repos.Database.{Value, uuid, int, after, end_of}
use holvit_backend.Repos.Filters.{BaseFilter, SortInfo, count_col, page_offset, if_some, sort_by}
use holvit_backend.Repos.Users.{
  UserFilter, fields_from, with_field, is_space, search_words, search_pattern, users_setup,
  users_query,
}

abbrev present : {A : Type 0} → Option A → Bool
present none = false
present (some a) = true

abbrev count_words : Option String → Option ℕ
unfolding fields_from
count_words none = none
count_words (some x) = some (length (fields_from "" x))

-- What the text may show of a filter: which parts there are, the order, and the number of words.
pub record Shape : Type 0 where
  pub has_id : Bool
  pub has_realm_id : Bool
  pub has_username : Bool
  pub has_paging : Bool
  pub order : Option SortInfo
  pub words : Option ℕ

abbrev pub shape : UserFilter → Shape
unfolding fields_from
shape filter = record {
  has_id = present filter.base.id;
  has_realm_id = present filter.realm_id;
  has_username = present filter.username;
  has_paging = present filter.base.paging_info;
  order = filter.base.sort_info;
  words = count_words filter.base.search_text;
}

abbrev blank : Any (Unit {0})
blank = value tt

abbrev when : Bool → Method (Unit {0}) → Method (Unit {0})
when test method = if test then method else pure tt

order_by : SortInfo → Method (Unit {0})
order_by i =
    add_order_by (string (str_append i.field (if i.ascending then " asc" else " desc")) ∷ [])

word_conditions : ℕ → Method (Unit {0})
word_conditions zero = pure tt
word_conditions (suc n) = do
  add_where (string "username ILIKE ? OR email ILIKE ?") (blank ∷ blank ∷ [])
  word_conditions n

shape_setup : Shape → Method (Unit {0})
shape_setup s = do
  add_from (string "users")
  when s.has_id (add_where (string "id = ?") (blank ∷ []))
  when s.has_realm_id (add_where (string "realm_id = ?") (blank ∷ []))
  when s.has_username (add_where (string "username = lower(?)") (blank ∷ []))
  (do
    when s.has_paging (do set_limit (number tt); set_offset (number tt))
    if_some s.order order_by)
  if_some s.words word_conditions

-- The words of a search are not empty.
abbrev AllWords : List String → Type 0
AllWords [] = Unit
AllWords (word ∷ words) = (str_eq word "" ≡ false) × AllWords words

with_field-AllWords :
    (word : String) (rest : List String) → AllWords rest → AllWords (with_field word rest)
with_field-AllWords word rest h = elim (Bool-cases (str_eq word "")) [
  | inl e ↦ rw e h
  | inr e ↦ rw e (e, h)
]

fields_from-AllWords : (word s : String) → AllWords (fields_from word s)
unfolding fields_from
fields_from-AllWords word String.[] = with_field-AllWords word [] tt
fields_from-AllWords word (String.◌∷◌ c s) = elim (Bool-cases (is_space (code c))) [
  | inl e ↦ rw e (with_field-AllWords word _ (fields_from-AllWords "" s))
  | inr e ↦ rw e (fields_from-AllWords _ s)
]

search_words-Follows :
    (words : List String)
    → AllWords words
    → Follows (search_words words) (word_conditions (length words))
unfolding search_words word_conditions erase_raw
search_words-Follows [] h = Follows-skip
search_words-Follows (word ∷ words) h = rw (h.0) (
    Follows-then
      (Follows-where "username ILIKE ? OR email ILIKE ?"
        (string (search_pattern word) ∷ string (search_pattern word) ∷ []))
      (search_words-Follows words h.1))

Follows-if_some :
    {A : Type 0} (o : Option A) (m : A → Method Value) (m' : Method (Unit {0}))
    → ((a : A) → Follows (m a) m')
    → Follows (if_some o m) (when (present o) m')
Follows-if_some none m m' h = Follows-skip
Follows-if_some (some a) m m' h = h a

order-Follows : (o : Option SortInfo) → Follows (if_some o sort_by) (if_some o order_by)
unfolding sort_by order_by
order-Follows none = Follows-skip
order-Follows (some i) = Follows-order_by _

words-Follows :
    (o : Option String)
    → Follows
        (if_some o (λ x. search_words (fields_from "" x)))
        (if_some (count_words o) word_conditions)
unfolding fields_from
words-Follows none = Follows-skip
words-Follows (some x) = search_words-Follows (fields_from "" x) (fields_from-AllWords "" x)

users_setup-Follows : (f : UserFilter) → Follows (users_setup f) (shape_setup (shape f))
unfolding users_setup shape_setup erase_raw
users_setup-Follows f = Follows-then (Follows-from "users") (
    Follows-then (Follows-if_some f.base.id _ _ (λ x. Follows-where "id = ?" (value (uuid x) ∷ [])))
      (Follows-then
        (Follows-if_some f.realm_id _ _ (λ x. Follows-where "realm_id = ?" (value (uuid x) ∷ [])))
        (Follows-then
          (Follows-if_some f.username _ _
            (λ x. Follows-where "username = lower(?)" (string x ∷ [])))
          (Follows-then
            (Follows-then
              (Follows-if_some f.base.paging_info _ _ (λ i.
                Follows-then (Follows-limit (int i.page_size))
                  (Follows-offset (int (page_offset i)))))
              (order-Follows f.base.sort_info))
            (words-Follows f.base.search_text)))))

abbrev erased : Outcome (SelectQuery Value) → Outcome (SelectQuery (Unit {0}))
erased (done q) = done (erase_select q)
erased (panicked e) = panicked e

abbrev end_query : Outcome (Unit {0}) × Selection (Unit {0}) → Outcome (SelectQuery (Unit {0}))
end_query r = after (end_of r) (λ q. done (to_query q))

-- The query without its values, by the shape of the filter.
shaped : Shape → Outcome (SelectQuery (Unit {0}))
unfolding select_from make_raw_fragment make_raw_fragments
shaped s =
    after
      (select_from {S = Unit {0}} (string (if s.has_paging then "count(*) over()" else "-1"))
        (string "id"
          ∷ string "realm_id"
          ∷ string "username"
          ∷ string "email"
          ∷ string "email_verified"
          ∷ [])
        tt).0
      (λ start. end_query (shape_setup s start))

erased_end :
    (r : Outcome (Unit {0})) (s : Selection Value)
    → erased (after (end_of (r, s)) (λ q. done (to_query q))) ≡ end_query (r, erase_selection s)
unfolding erase_raw
erased_end (done u) s = refl
erased_end (panicked e) s = refl

-- What `Select` makes of the columns.
abbrev start : {V : Type 0} → String → Selection V
start count = new_selection no_fragments (
    fragment (raw_query count no_params) (
      fragment (raw_query "id" no_params) (
        fragment (raw_query "realm_id" no_params) (
          fragment (raw_query "username" no_params) (
            fragment (raw_query "email" no_params)
              (fragment (raw_query "email_verified" no_params) no_fragments))))))

count_text :
    (b : BaseFilter) → count_col b ≡ (if present b.paging_info then "count(*) over()" else "-1")
count_text b = ground arith

erased_query : (f : UserFilter) → erased (users_query f) ≡ shaped (shape f)
unfolding users_query shaped erase_raw
erased_query f =
    erased_end (users_setup f (start (count_col f.base))).0
      (users_setup f (start (count_col f.base))).1
    ∙ ap end_query (sym ((users_setup-Follows f).at (start (count_col f.base))))
    ∙ ap (λ (c : String). end_query (shape_setup (shape f) (start c))) (count_text f.base)

-- The text that `FindUsers` sends.
abbrev pub users_text : (String → List Token) → UserFilter → Outcome String
unfolding users_query
users_text scan_all f = after (users_query f) (select_text scan_all)

after-erased :
    (scan_all : String → List Token) (o : Outcome (SelectQuery Value))
    → after (erased o) (select_text scan_all) ≡ after o (select_text scan_all)
after-erased scan_all (done q) = erased_text scan_all q
after-erased scan_all (panicked e) = refl

-- Two filters that have the same parts, the same order and searches of as many words send the same
-- text, whatever names, ids, words and pages they hold.
pub users_text-shape :
    (scan_all : String → List Token) (f g : UserFilter)
    → shape f ≡ shape g
    → users_text scan_all f ≡ users_text scan_all g
unfolding users_query
users_text-shape scan_all f g h =
    sym (after-erased scan_all (users_query f))
    ∙ ap (λ o. after o (select_text scan_all)) (erased_query f ∙ ap shaped h ∙ sym (erased_query g))
    ∙ after-erased scan_all (users_query g)
