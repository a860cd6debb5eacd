-- ===== src/Sqlb/Writer.antt =====
-- The `strings.Builder` and the `params` that every `build` method writes to, and the loops over
-- fragments: sqlb/sqlb.go.
use holvit_backend.Prelude.{
  ℕ, ◌+◌, ◌-◌, String, List, [], ◌∷◌, ◌++◌, Bool, length, ltb, ◌==◌, if◌then◌else◌,
}
use holvit_backend.Go.{done, Go, ◌>>◌, pure}
use holvit_backend.Sqlb.Syntax.{Any}

-- A write to the builder: a text, or the placeholder `$n`.
pub data Piece : Type 0 where
  text : String → Piece
  placeholder : ℕ → Piece

-- The text so far, one piece for each write, and the parameters so far.
pub record Writer (V : Type 0) : Type 0 where
  pub sql : List Piece
  pub params : List (Any V)

abbrev pub Build : Type 0 → Type 0
Build V = Go (Writer V) (Unit {0})

module _ {V : Type 0} where
  abbrev pub skip : Build V
  skip = pure tt

  -- `sql.WriteString`, `sql.WriteRune`
  unfoldable pub write : String → Build V
  write t w = (done tt, record w { sql = w.sql ++ text t ∷ [] })

  -- `sql.WriteString(p.append(param))`
  unfoldable pub append_param : Any V → Build V
  append_param a w =
      let params = w.params ++ a ∷ [] in
      (done tt, record { sql = w.sql ++ placeholder (length params) ∷ []; params = params })

  -- `buildFragments`, from the index `i` of `n` fragments on
  unfoldable pub fragments_from : (i n : ℕ) → String → List (Build V) → Build V
  fragments_from i n joiner [] = skip
  fragments_from i n joiner (f ∷ fs) = do
    f
    if ltb i (n - 1) then write joiner else skip
    fragments_from (i + 1) n joiner fs

  unfoldable pub build_fragments : List (Build V) → String → Build V
  unfolding fragments_from
  build_fragments fragments joiner = fragments_from 0 (length fragments) joiner fragments

  unfoldable pub build_with : List (Build V) → Build V
  build_with [] = skip
  build_with (w ∷ withs) = do write "WITH "; build_fragments (w ∷ withs) ", "; write " "

  -- The loop of `buildWhere` and of `buildHaving`, which differ in the keyword.
  unfoldable pub conditions_from : ℕ → String → (wrap : Bool) → List (Build V) → Build V
  conditions_from idx keyword wrap [] = skip
  conditions_from idx keyword wrap (cond ∷ conds) = do
    if idx == 0 then write keyword else write " AND "
    if wrap then write "(" else skip
    cond
    if wrap then write ")" else skip
    conditions_from (idx + 1) keyword wrap conds

  unfoldable pub build_where : List (Build V) → Build V
  unfolding conditions_from
  build_where conds = conditions_from 0 " WHERE " (ltb 1 (length conds)) conds

  -- `selectQuery.buildHaving`
  unfoldable pub build_having : List (Build V) → Build V
  unfolding conditions_from
  build_having conds = conditions_from 0 " HAVING " (ltb 1 (length conds)) conds
