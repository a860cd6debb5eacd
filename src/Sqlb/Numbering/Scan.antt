-- ===== src/Sqlb/Numbering/Scan.antt =====
-- The loop of `rawQuery.build` binds one parameter for each mark, in order, and panics at the
-- first mark that has none.
use Prim.Native.Char.{code}
use holvit_backend.Prelude.{
  ℕ, zero, suc, ◌+◌, String, List, [], ◌∷◌, ◌≡◌, ◌&&◌, get_elem?, ◌==◌, Bool-cases, inl, inr, arith,
}
use native.Mathlib.Nat.{zero-add, add-zero}
use holvit_backend.Sqlb.Writer.{Build}
use holvit_backend.Sqlb.Build.{Token, has_mark, param_at, scan_runes, scan_tokens}
use holvit_backend.Sqlb.Arguments.{Args, or_none, pick, marks_in, marks, pick-add}
use holvit_backend.Sqlb.Numbering.{
  Emits, Emits-pure, Emits-panic, Emits-write, Emits-bind, Emits-then, Quiet-then,
}
use holvit_backend.Sqlb.Numbering.Parts.{EmitAll}

module _ {V : Type 0} where
  param_at-Emits :
      (ms : List (Build V)) (os : List (Args V)) (i : ℕ)
      → EmitAll ms os
      → Emits (param_at ms i) tt (or_none (get_elem? os i))
  unfolding param_at
  param_at-Emits [] [] i h = Emits-panic _ tt
  param_at-Emits (m ∷ ms) (o ∷ os) zero h = h.0
  param_at-Emits (m ∷ ms) (o ∷ os) (suc i) h = param_at-Emits ms os i h.1
  param_at-Emits [] (o ∷ os) i h = absurd h
  param_at-Emits (m ∷ ms) [] i h = absurd h

  module _ (ms : List (Build V)) (os : List (Args V)) (h : EmitAll ms os) where
    scan_runes-Emits :
        (s : String) (i : ℕ) → Emits (scan_runes ms s i) (i + marks_in s) (pick os i (marks_in s))
    unfolding scan_runes
    scan_runes-Emits String.[] i = rw (add-zero) (Emits-pure i)
    scan_runes-Emits (String.◌∷◌ c s) i = elim (Bool-cases (code c == b'?')) [
      | inl mark ↦
          rw mark
            (rw (next i) (Emits-then _ _ (param_at-Emits ms os i h) (scan_runes-Emits s (i + 1))))
      | inr other ↦ rw other (Quiet-then _ _ (Emits-write _) (scan_runes-Emits s i))
    ]
      where
        next : (i : ℕ) → i + suc (marks_in s) ≡ (i + 1) + marks_in s
        next i = omega arith

    pub scan_tokens-Emits :
        (ts : List Token) (i : ℕ) → Emits (scan_tokens ms ts i) tt (pick os i (marks ts))
    unfolding scan_tokens
    scan_tokens-Emits [] i = Emits-pure tt
    scan_tokens-Emits (t ∷ ts) i = elim (Bool-cases (t.is_operator && has_mark t.value)) [
      | inl operator ↦
          rw (operator, pick-add)
            (Emits-bind _ _ (scan_runes-Emits t.value i)
              (scan_tokens-Emits ts (i + marks_in t.value)))
      | inr other ↦
          rw (other, zero-add) (Quiet-then _ _ (Emits-write t.value) (scan_tokens-Emits ts i))
    ]
