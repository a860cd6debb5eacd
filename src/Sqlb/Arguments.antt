-- ===== src/Sqlb/Arguments.antt =====
-- What a query binds, read off its parts with no builder: the arguments in the order of the text,
-- or nothing where a term has more marks than parameters.
use Prim.Native.Char.{code}
use holvit_backend.Prelude.{
  ℕ, zero, suc, ◌+◌, String, List, [], ◌∷◌, ◌++◌, ◌≡◌, refl, ◌&&◌, Option, none, some, get_elem?,
  ◌==◌, if◌then◌else◌, append-nil, append_assoc, ap, arith, sym,
}
use native.Mathlib.Nat.{zero-add, suc-add, add-zero}
use holvit_backend.Sqlb.Syntax.{
  RawQuery, raw_query, Any, string, value, raw, select, Params, no_params, param, Fragments,
  no_fragments, fragment, Nillable, nil, set, SelectQuery, select_query,
}
use holvit_backend.Sqlb.Build.{Token, has_mark}

abbrev pub Args : Type 0 → Type 0
Args V = Option (List (Any V))

-- The `?` of a text, and of the operators of a token list.
abbrev pub marks_in : String → ℕ
marks_in String.[] = 0
marks_in (String.◌∷◌ c s) = if code c == b'?' then suc (marks_in s) else marks_in s

abbrev pub marks : List Token → ℕ
marks [] = 0
marks (t ∷ ts) = (if t.is_operator && has_mark t.value then marks_in t.value else 0) + marks ts

module _ {V : Type 0} where
  -- Both parts bind, the left one first.
  infixr 6 ◌&◌
  abbrev pub ◌&◌ : Args V → Args V → Args V
  none & _ = none
  some xs & none = none
  some xs & some ys = some (xs ++ ys)

  abbrev pub or_none : Option (Args V) → Args V
  or_none none = none
  or_none (some a) = a

  -- The parameters of `n` marks, from the index `i` on.
  abbrev pub pick : List (Args V) → (i n : ℕ) → Args V
  pick params i zero = some []
  pick params i (suc n) = or_none (get_elem? params i) & pick params (i + 1) n

  abbrev pub all_of : List (Args V) → Args V
  all_of [] = some []
  all_of (a ∷ rest) = a & all_of rest

  abbrev pub at_most_one : Option (Args V) → Args V
  at_most_one none = some []
  at_most_one (some a) = a

  pub &-nil : (a : Args V) → (a & some []) ≡ a
  &-nil none = refl
  &-nil (some xs) = ap some (append-nil xs)

  pub nil-& : (a : Args V) → (some [] & a) ≡ a
  nil-& none = refl
  nil-& (some xs) = refl

  pub &_assoc : (a b c : Args V) → ((a & b) & c) ≡ (a & (b & c))
  &_assoc none b c = refl
  &_assoc (some xs) none c = refl
  &_assoc (some xs) (some ys) none = refl
  &_assoc (some xs) (some ys) (some zs) = ap some (append_assoc xs ys zs)

  pub pick-add :
      (ps : List (Args V)) (i m n : ℕ) → pick ps i (m + n) ≡ (pick ps i m & pick ps (i + m) n)
  pick-add ps i zero n = rw zero-add (rw add-zero (sym (nil-& (pick ps i n))))
  pick-add ps i (suc m) n =
      rw suc-add
        (rw (pick-add ps (i + 1) m n, shift) (sym (&_assoc (or_none (get_elem? ps i)) _ _)))
    where
      shift : (i + 1) + m ≡ i + suc m
      shift = omega arith

module _ {V : Type 0} (scan_all : String → List Token) where
  unfoldable mutual
    pub raw_args : RawQuery V → Args V
    raw_args (raw_query term params) = pick (params_args params) 0 (marks (scan_all term))

    pub params_args : Params V → List (Args V)
    params_args no_params = []
    params_args (param p ps) = param_args p ∷ params_args ps

    pub param_args : Any V → Args V
    param_args (select q) = select_args q
    param_args (raw q) = raw_args q
    param_args (string s) = some (string s ∷ [])
    param_args (value v) = some (value v ∷ [])

    pub fragments_args : Fragments V → List (Args V)
    fragments_args no_fragments = []
    fragments_args (fragment f fs) = raw_args f ∷ fragments_args fs

    pub nillable_args : Nillable V → Option (Args V)
    nillable_args nil = none
    nillable_args (set q) = some (raw_args q)

    -- in the order of the clauses: the `DISTINCT ON` expressions bind only where `distinct` is set
    pub select_args : SelectQuery V → Args V
    select_args
          (select_query withs columns from joins conditions group_by having distinct distinct_on
            order_by limit offset lock_for_update skip_locked) =
        all_of (fragments_args withs)
        & ((if distinct then all_of (fragments_args distinct_on) else some [])
            & all_of (fragments_args columns))
        & all_of (fragments_args from)
        & all_of (fragments_args joins)
        & all_of (fragments_args conditions)
        & all_of (fragments_args group_by)
        & all_of (fragments_args having)
        & all_of (fragments_args order_by)
        & at_most_one (nillable_args limit)
        & at_most_one (nillable_args offset)
