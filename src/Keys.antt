-- ===== src/Keys.antt =====
-- keys.go, and `matchKeys` of redis.go: the argument of KEYS as a regular expression.
-- Go's `regexp` is a parameter, `compile`: the test of a text against an expression, or `none` where
-- `MustCompile` panics.
use Prim.Native.Char.{Char, code}
use Prim.Native.String.{◌++◌ as str_append}
use rediqueue.Base.{
  String, Bool, List, [], ◌∷◌, Option, none, some, nat_beq, ◌==◌, string_eq, if◌then◌else◌, ◌>>=◌,
}

-- Where the loop over the pattern stands: between characters, behind a `\`, in a class with what
-- `charClass` holds, or behind a `\` there.
pub data Mode : Type 0 where
  outside escaped : Mode
  in_class class_escaped : String → Mode

abbrev pub char_text : Char → String
char_text c = String.◌∷◌ c String.[]

-- `charClass` written out, or `none` for `[]`, which matches nothing.
unfoldable pub close_class : String → Option String
close_class cls = if cls == "" then none else some (str_append "\\E[" (str_append cls "]\\Q"))

-- One character of the pattern: the next place, and what is written.
unfoldable pub pattern_step : Mode → Char → Option (Mode × String)
unfolding close_class
pattern_step outside c =
    if nat_beq (code c) b'*'
    then some (outside, "\\E.*\\Q")
    else if nat_beq (code c) b'?'
    then some (outside, "\\E.\\Q")
    else if nat_beq (code c) b'['
    then some (in_class "", "")
    else if nat_beq (code c) 92
    then some (escaped, "")
    else some (outside, char_text c)
pattern_step escaped c = some (outside, char_text c)
pattern_step (in_class cls) c =
    if nat_beq (code c) b']'
    then (do out ← close_class cls; some (outside, out))
    else if nat_beq (code c) 92
    then some (class_escaped (str_append cls (char_text c)), "")
    else some (in_class (str_append cls (char_text c)), "")
pattern_step (class_escaped cls) c = some (in_class (str_append cls (char_text c)), "")

-- The end of the pattern.
unfoldable pub pattern_end : Mode → Option String
unfolding close_class
pattern_end outside = some "\\E$"
pattern_end escaped = none
pattern_end (in_class cls) = do out ← close_class cls; some (str_append out "\\E$")
pattern_end (class_escaped cls) = none

unfoldable pub pattern_scan : Mode → String → Option String
unfolding pattern_step pattern_end
pattern_scan mode String.[] = pattern_end mode
pattern_scan mode (String.◌∷◌ c k) = elim (pattern_step mode c) [
  | none ↦ none
  | some (mode', out) ↦ (do rest ← pattern_scan mode' k; some (str_append out rest))
]

-- The source of the regular expression; `none` where the pattern will never match.
unfoldable pub pattern_re : String → Option String
unfolding pattern_scan
pattern_re k = do rest ← pattern_scan outside k; some (str_append "^\\Q" rest)

unfoldable pub matching : (String → Bool) → List String → List String
matching re [] = []
matching re (k ∷ keys) = let res = matching re keys in if re k then k ∷ res else res

-- `none` is the panic of `MustCompile`.
unfoldable pub match_keys :
    (String → Option (String → Bool)) → List String → String → Option (List String)
unfolding pattern_re matching
match_keys compile keys pattern = elim (pattern_re pattern) [
  | none ↦ some []
  | some source ↦ (do re ← compile source; some (matching re keys))
]
