-- ===== src/Sqlb/Query.antt =====
-- The `Build` methods: a query run from an empty builder, and its text: sqlb/sqlb.go.
use Prim.Native.Nat.{◌/◌, ◌%◌}
use holvit_backend.Prelude.{
  str_append, ℕ, zero, suc, String, List, [], ◌∷◌, ltb, ◌==◌, if◌then◌else◌,
}
use holvit_backend.Go.{Outcome, done, panicked}
use holvit_backend.Sqlb.Syntax.{Any}
use holvit_backend.Sqlb.Writer.{Piece, text, placeholder, Writer, Build}

-- `SqlQuery`
pub record SqlQuery (V : Type 0) : Type 0 where
  pub sql : String
  pub parameters : List (Any V)

-- A `Query` interface value: its unexported `build`. `Build` is one function of it for all types.
pub record Query (V : Type 0) : Type 0 where
  pub build : Build V

abbrev digit : ℕ → String
digit n =
    if n == 0
    then "0"
    else if n == 1
    then "1"
    else if n == 2
    then "2"
    else if n == 3
    then "3"
    else if n == 4
    then "4"
    else if n == 5
    then "5"
    else if n == 6
    then "6"
    else if n == 7
    then "7"
    else if n == 8
    then "8"
    else "9"

-- `strconv.Itoa` on what is left of a number, before the digits so far. One step a digit: the
-- number itself is fuel enough.
decimal : (fuel : ℕ) → ℕ → String → String
decimal zero n digits = digits
decimal (suc fuel) n digits =
    let longer = str_append (digit (n % 10)) digits in
    let rest = decimal fuel (n / 10) longer in if ltb n 10 then longer else rest

unfoldable pub itoa : ℕ → String
unfolding decimal
itoa n = decimal (suc n) n ""

unfoldable pub render : List Piece → String
unfolding itoa
render [] = ""
render (text t ∷ ps) = str_append t (render ps)
render (placeholder n ∷ ps) = str_append "$" (str_append (itoa n) (render ps))

module _ {V : Type 0} where
  abbrev pub empty_writer : Writer V
  empty_writer = record { sql = []; params = [] }

  abbrev pub finish : Outcome (Unit {0}) → Writer V → Outcome (SqlQuery V)
  finish (panicked e) w = panicked e
  finish (done _) w = done (record { sql = render w.sql; parameters = w.params })

  -- `Build`
  unfoldable pub build_query : Query V → Outcome (SqlQuery V)
  unfolding render
  build_query q = let (r, w) = q.build empty_writer in finish r w
