-- ===== src/Ip.antt =====
-- Addresses of clients: utils/ip.go. A text is its bytes; the parser of `pgtype` is a parameter.
use Prim.Native.Char.{code}
use holvit_backend.Prelude.{
  ℕ, suc, ◌-◌, String, List, [], ◌∷◌, Bool, false, ◌&&◌, Option, none, some, length, take, ltb,
  ◌==◌, if◌then◌else◌,
}
use holvit_backend.Go.{Outcome, Result, unwrap_result}

abbrev pub codes : String → List ℕ
codes String.[] = []
codes (String.◌∷◌ c s) = code c ∷ codes s

-- `strings.LastIndex` of one byte, which is -1 for none
abbrev pub next_index : ℕ → ℕ → Option ℕ → Option ℕ
next_index b c (some i) = some (suc i)
next_index b c none = if c == b then some 0 else none

unfoldable pub last_index : ℕ → List ℕ → Option ℕ
last_index b [] = none
last_index b (c ∷ cs) = next_index b c (last_index b cs)

-- `strings.HasPrefix` and `strings.HasSuffix` of one byte
abbrev pub has_prefix : ℕ → List ℕ → Bool
has_prefix b [] = false
has_prefix b (c ∷ cs) = c == b

unfoldable pub has_suffix : ℕ → List ℕ → Bool
has_suffix b [] = false
has_suffix b (c ∷ []) = c == b
has_suffix b (c ∷ d ∷ cs) = has_suffix b (d ∷ cs)

-- `s[1 : len(s)-1]`
abbrev pub drop_first : List ℕ → List ℕ
drop_first [] = []
drop_first (c ∷ cs) = cs

abbrev pub inner : List ℕ → List ℕ
inner s = take (length s - 2) (drop_first s)

abbrev cut_after : ℕ → Option ℕ → List ℕ → List ℕ
cut_after bracket none s = s
cut_after bracket (some colon) s = if ltb bracket colon then take colon s else s

abbrev cut : Option ℕ → List ℕ → List ℕ
cut none s = s
cut (some colon) s = take colon s

-- the text that `InetFromString` hands to `inet.Set`
unfoldable pub host_of : List ℕ → List ℕ
unfolding last_index has_suffix
host_of address = elim (last_index b']' address) [
  | some bracket ↦
      let s = cut_after bracket (last_index b':' address) address in
      if has_prefix b'[' s && has_suffix b']' s then inner s else s
  | none ↦ cut (last_index b':' address) address
]

-- `InetFromString`
unfoldable pub inet_from_string : {A : Type 0} → (List ℕ → Result A) → String → Outcome A
unfolding host_of
inet_from_string set address = unwrap_result (set (host_of (codes address)))
