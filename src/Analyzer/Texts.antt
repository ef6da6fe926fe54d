-- ===== src/Analyzer/Texts.antt =====
-- What the analyzer uses of Python's texts, and what it takes from the interpreter and from the decoder.
use breach_scope.Prelude.{
  ℕ, suc, String, Bool, true, false, ◌&&◌, Option, none, some, List, ◌==◌, eqb, if◌then◌else◌,
}
use breach_scope.Prelude.Text.{Unicode}
use breach_scope.Prelude.Json.{Value}
use breach_scope.Prelude.Integers.{ℤ}
use Prim.Native.Char.{code}

-- The text that matched, and where it starts and ends.
abbrev pub Match : Type 0
Match = String × ℕ × ℕ

abbrev pub Finder : Type 0
Finder = String → Option Match

-- `repr` is the text of a list or a dict; `basename` is ntpath.basename; `regex` is re.compile with the two
-- flags and then `search`, none where it raises; `parse_int` is `int`, to the base 16 or 10, and
-- `fromisoformat` that of datetime, in UTC where the text has no time zone, in microseconds; both are none
-- where they raise. `seconds` is a number of microseconds as a float of seconds. The other four are
-- breachscope/decoder.py and `_decode_powershell_encoded`, none where they raise or give nothing.
pub record Engine : Type 0 where
  pub unicode : Unicode
  pub repr : Value → String
  pub basename : String → String
  pub regex : String → Option Finder
  pub encoded : String → List String
  pub obfuscation : String → Option String
  pub behaviors : String → Option Value
  pub maybe_base64 : String → Option String
  pub parse_int : (hexadecimal : Bool) → String → Option ℤ
  pub fromisoformat : String → Option ℕ
  pub seconds : ℕ → Value

-- s.startswith(t)
unfoldable pub starts_with : (t s : String) → Bool
starts_with String.[] s = true
starts_with (String.◌∷◌ c t) String.[] = false
starts_with (String.◌∷◌ c t) (String.◌∷◌ d s) =
    let rest = starts_with t s in eqb (code c) (code d) && rest

-- s.find(t), none for -1
unfoldable pub find_text : (t s : String) → Option ℕ
unfolding starts_with
find_text t String.[] = if t == "" then some 0 else none
find_text t (String.◌∷◌ c s) =
    let later : Option ℕ = elim (find_text t s) [ none ↦ none | some n ↦ some (suc n) ] in
    if starts_with t (String.◌∷◌ c s) then some 0 else later

-- s.rstrip(".")
unfoldable pub rstrip_dot : String → String
rstrip_dot String.[] = ""
rstrip_dot (String.◌∷◌ c s) =
    let rest = rstrip_dot s in if eqb (code c) b'.' && rest == "" then "" else String.◌∷◌ c rest
