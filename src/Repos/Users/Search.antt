-- ===== src/Repos/Users/Search.antt =====
-- The patterns of a search for users, repos/UserRepository.go, as PostgreSQL reads them.
use Prim.Native.Char.{Char, code}
use holvit_backend.Prelude.{
  ℕ, String, str_append, List, [], ◌∷◌, Bool, true, false, Option, none, some, if◌then◌else◌, ◌==◌,
  ◌≡◌, refl, Bool-cases, inl, inr, arith, ap, ◌∙◌,
}
use text.Mathlib.TextLemmas.{cons-append, nil-append}
use holvit_backend.Repos.Users.{replace_rune, search_pattern}

-- A part of a LIKE pattern: any text, any character, or the character of this code.
pub data LikePart : Type 0 where
  any_text any_character : LikePart
  exactly : ℕ → LikePart

abbrev before : LikePart → Option (List LikePart) → Option (List LikePart)
before p none = none
before p (some ps) = some (p ∷ ps)

-- How PostgreSQL documents a pattern: after a backslash a character stands for itself, and a
-- pattern may not end with a backslash.
pub like_parts : (escaped : Bool) → String → Option (List LikePart)
like_parts true String.[] = none
like_parts false String.[] = some []
like_parts true (String.◌∷◌ c s) = before (exactly (code c)) (like_parts false s)
like_parts false (String.◌∷◌ c s) =
    let rest = like_parts false s in
    let escape = like_parts true s in
    if code c == b'\\'
    then escape
    else before
        (if code c == b'%'
          then any_text
          else if code c == b'_'
          then any_character
          else exactly (code c))
        rest

-- Each character for itself, before what follows.
unfoldable pub exactly_each : String → Option (List LikePart) → Option (List LikePart)
exactly_each String.[] rest = rest
exactly_each (String.◌∷◌ c s) rest = before (exactly (code c)) (exactly_each s rest)

abbrev escaped : String → String
unfolding replace_rune
escaped word = replace_rune b'_' "\\_" (replace_rune b'%' "\\%" (replace_rune b'\\' "\\\\" word))

pair-append :
    (a b : Char) (s : String)
    → str_append (String.◌∷◌ a (String.◌∷◌ b String.[])) s ≡ String.◌∷◌ a (String.◌∷◌ b s)
pair-append a b s = simp (cons-append, nil-append)

replace-same :
    (k : ℕ) (new : String) (c : Char) (s : String)
    → (code c == k) ≡ true
    → replace_rune k new (String.◌∷◌ c s) ≡ str_append new (replace_rune k new s)
unfolding replace_rune
replace-same k new c s h = rw h refl

replace-other :
    (k : ℕ) (new : String) (c : Char) (s : String)
    → (code c == k) ≡ false
    → replace_rune k new (String.◌∷◌ c s) ≡ String.◌∷◌ c (replace_rune k new s)
unfolding replace_rune
replace-other k new c s h = rw h refl

-- What each character becomes.
escaped-backslash :
    (c : Char) (s : String)
    → (code c == b'\\') ≡ true
    → escaped (String.◌∷◌ c s) ≡ String.◌∷◌ "\\" (String.◌∷◌ "\\" (escaped s))
unfolding replace_rune
escaped-backslash c s h = rw h (rw (pair-append "\\" "\\" (replace_rune b'\\' "\\\\" s)) refl)

escaped-percent :
    (c : Char) (s : String)
    → (code c == b'\\') ≡ false
    → (code c == b'%') ≡ true
    → escaped (String.◌∷◌ c s) ≡ String.◌∷◌ "\\" (String.◌∷◌ "%" (escaped s))
unfolding replace_rune
escaped-percent c s h k =
    rw (h, k)
      (rw (pair-append "\\" "%" (replace_rune b'%' "\\%" (replace_rune b'\\' "\\\\" s))) refl)

escaped-underscore :
    (c : Char) (s : String)
    → (code c == b'\\') ≡ false
    → (code c == b'%') ≡ false
    → (code c == b'_') ≡ true
    → escaped (String.◌∷◌ c s) ≡ String.◌∷◌ "\\" (String.◌∷◌ "_" (escaped s))
unfolding replace_rune
escaped-underscore c s h k l = rw (h, k, l) (pair-append "\\" "_" (escaped s))

escaped-other :
    (c : Char) (s : String)
    → (code c == b'\\') ≡ false
    → (code c == b'%') ≡ false
    → (code c == b'_') ≡ false
    → escaped (String.◌∷◌ c s) ≡ String.◌∷◌ c (escaped s)
unfolding replace_rune
escaped-other c s h k l = rw (h, k, l) refl

same_code : (a c : Char) (k : ℕ) → (code c == k) ≡ true → code a ≡ k → code a ≡ code c
same_code a c k h e = ground arith

-- An escaped character is read as itself.
parts_of_escaped :
    (a c : Char) (s t : String) (k : ℕ)
    → (code c == k) ≡ true
    → code a ≡ k
    → like_parts false (str_append (String.◌∷◌ "\\" (String.◌∷◌ a s)) t)
      ≡ before (exactly (code c)) (like_parts false (str_append s t))
unfolding like_parts
parts_of_escaped a c s t k h e =
    rw (cons-append "\\" (String.◌∷◌ a s) t, cons-append a s t)
      (ap (λ (n : ℕ). before (exactly n) (like_parts false (str_append s t))) (same_code a c k h e))

other_part :
    (c : Char) (s t : String)
    → (code c == b'\\') ≡ false
    → (code c == b'%') ≡ false
    → (code c == b'_') ≡ false
    → like_parts false (str_append (String.◌∷◌ c s) t)
      ≡ before (exactly (code c)) (like_parts false (str_append s t))
unfolding like_parts
other_part c s t h k l = rw (cons-append c s t, h, k, l) refl

escaped_lem :
    (word rest : String)
    → like_parts false (str_append (escaped word) rest) ≡ exactly_each word (like_parts false rest)
unfolding like_parts exactly_each replace_rune
escaped_lem String.[] rest = ap (like_parts false) (nil-append rest)
escaped_lem (String.◌∷◌ c s) rest =
    let ih = ap (before (exactly (code c))) (escaped_lem s rest) in
    elim (Bool-cases (code c == b'\\')) [
      | inl h ↦
          rw (escaped-backslash c s h) (parts_of_escaped "\\" c (escaped s) rest _ h refl ∙ ih)
      | inr h ↦ elim (Bool-cases (code c == b'%')) [
        | inl k ↦
            rw (escaped-percent c s h k) (parts_of_escaped "%" c (escaped s) rest _ k refl ∙ ih)
        | inr k ↦ elim (Bool-cases (code c == b'_')) [
          | inl l ↦
              rw (escaped-underscore c s h k l)
                (parts_of_escaped "_" c (escaped s) rest _ l refl ∙ ih)
          | inr l ↦ rw (escaped-other c s h k l) (other_part c (escaped s) rest h k l ∙ ih)
        ]
      ]
    ]

-- Read as PostgreSQL documents it, the pattern of a word is: any text, the characters of the word,
-- each standing for itself, and any text.
pub search_pattern_lem :
    (word : String)
    → like_parts false (search_pattern word)
      ≡ before any_text (exactly_each word (some (any_text ∷ [])))
unfolding search_pattern like_parts
search_pattern_lem word =
    rw
      (
        cons-append "%" String.[] (str_append (escaped word) "%"),
        nil-append (str_append (escaped word) "%"),
      )
      (ap (before any_text) (escaped_lem word "%"))
