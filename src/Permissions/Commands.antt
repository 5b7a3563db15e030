-- ===== src/Permissions/Commands.antt =====
-- The helpers of permissions/policy.py and permissions/grants.py on the texts of commands and targets.
use Prim.Native.String.{◌++◌ as append}
use Prim.Native.Char.{code, Char}
use bauhinia_agent.Common.{
  ℕ, String, Bool, true, false, not, ◌&&◌, ◌||◌, List, [], ◌∷◌, ◌==◌, nat_eq, string_eq,
  if◌then◌else◌, filter, map, is_space, strip, is_empty_text, elem,
}

-- `text.startswith(prefix)`
unfoldable pub starts_with : (prefix text : String) → Bool
starts_with String.[] text = true
starts_with (String.◌∷◌ p ps) String.[] = false
starts_with (String.◌∷◌ p ps) (String.◌∷◌ c cs) = code p == code c && starts_with ps cs

-- `text.endswith(".localhost")` and `keyword in key`: at some position the rest is, or starts with, a text.
unfoldable pub ends_with : (suffix text : String) → Bool
ends_with suffix String.[] = suffix == ""
ends_with suffix (String.◌∷◌ c cs) = String.◌∷◌ c cs == suffix || ends_with suffix cs

unfoldable pub contains : (part text : String) → Bool
unfolding starts_with
contains part String.[] = starts_with part ""
contains part (String.◌∷◌ c cs) = starts_with part (String.◌∷◌ c cs) || contains part cs

-- The class `[;&|<>`\r\n]`; it covers the alternatives `&&` and `||` of the pattern.
abbrev is_control : ℕ → Bool
is_control c = elem c (59 ∷ 38 ∷ 124 ∷ 60 ∷ 62 ∷ 96 ∷ 13 ∷ 10 ∷ [])

-- `_has_shell_control_operator`: a control character, or `$(`, somewhere.
unfoldable pub has_shell_control_operator : String → Bool
unfolding starts_with
has_shell_control_operator String.[] = false
has_shell_control_operator (String.◌∷◌ c cs) =
    is_control (code c) || (code c == 36 && starts_with "(" cs) || has_shell_control_operator cs

-- The characters before the first one that passes a test.
unfoldable pub before : (ℕ → Bool) → String → String
before stop String.[] = ""
before stop (String.◌∷◌ c cs) =
    let rest = before stop cs in if stop (code c) then "" else String.◌∷◌ c rest

-- `text.rstrip(chars)` and `text.lstrip(chars)`
unfoldable pub rtrim : (ℕ → Bool) → String → String
rtrim drops String.[] = ""
rtrim drops (String.◌∷◌ c cs) =
    let rest = rtrim drops cs in
    if is_empty_text rest && drops (code c) then "" else String.◌∷◌ c rest

unfoldable pub ltrim : (ℕ → Bool) → String → String
ltrim drops String.[] = ""
ltrim drops (String.◌∷◌ c cs) =
    let rest = ltrim drops cs in if drops (code c) then rest else String.◌∷◌ c cs

-- `_command_matches_prefix`
unfoldable pub command_matches_prefix : (command prefix : String) → Bool
unfolding starts_with strip
command_matches_prefix command prefix =
    not (is_empty_text (strip prefix))
    && (strip command == strip prefix || starts_with (append (strip prefix) " ") (strip command))

-- The characters at which `str.splitlines` breaks a text.
abbrev is_line_break : ℕ → Bool
is_line_break c = elem c (10 ∷ 11 ∷ 12 ∷ 13 ∷ 28 ∷ 29 ∷ 30 ∷ 133 ∷ 8232 ∷ 8233 ∷ [])

abbrev cons_first : Char → List String → List String
cons_first c [] = String.◌∷◌ c "" ∷ []
cons_first c (l ∷ ls) = String.◌∷◌ c l ∷ ls

-- A text cut at each character that passes a test.
unfoldable pub split_at : (ℕ → Bool) → String → List String
split_at stop String.[] = "" ∷ []
split_at stop (String.◌∷◌ c cs) =
    let rest = split_at stop cs in if stop (code c) then "" ∷ rest else cons_first c rest

-- `text.split()`
unfoldable pub words : String → List String
unfolding split_at
words text = filter (λ t. not (is_empty_text t)) (split_at is_space text)

-- The lines of a text, with an empty one more between `\r` and `\n` or at the end: `parts` drops it.
unfoldable pub lines : String → List String
unfolding split_at
lines text = split_at is_line_break text

-- `text.split(", ")`; after a comma its space is skipped.
pieces : (skip : Bool) → String → List String
unfolding starts_with
pieces skip String.[] = "" ∷ []
pieces skip (String.◌∷◌ c cs) =
    let separates = not skip && code c == 44 && starts_with " " cs in
    let rest = pieces separates cs in
    if skip then rest else if separates then "" ∷ rest else cons_first c rest

-- `[part.strip() for part in texts if part.strip()]`
unfoldable pub parts : List String → List String
unfolding strip
parts texts = filter (λ t. not (is_empty_text t)) (map strip texts)

abbrev or_else : List String → List String → List String
or_else [] ys = ys
or_else (x ∷ xs) ys = x ∷ xs

-- The texts of the paths that a target names.
unfoldable pub target_paths : String → List String
unfolding parts lines pieces
target_paths value =
    or_else (parts (lines value)) (or_else (parts (pieces false value)) (value ∷ []))
