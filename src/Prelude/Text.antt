-- ===== src/Prelude/Text.antt =====
-- The functions of Go's package strings that the program calls, over texts walked by character.
use Prim.Native.Nat.{ℕ}
use Prim.Native.Char.{Char, code}
use Prim.Native.String
use Prim.Native.String.{String}
use mathlib.Core.Bool.{Bool, true, false, ◌||◌, ◌&&◌}
use mathlib.Core.Option.{Option, none, some}
use mathlib.Core.List.{List, [], ◌∷◌}
use package.kcp_glbc.Prelude.Tests.{◌==◌, same, if◌then◌else◌}

infixr 65 ◌^^◌
-- Concatenation of texts.
abbrev pub ◌^^◌ : String → String → String
s ^^ t = String.◌++◌ s t

-- `strings.HasPrefix`
unfoldable pub has_prefix : String → String → Bool
has_prefix s String.[] = true
has_prefix String.[] (String.◌∷◌ d t) = false
has_prefix (String.◌∷◌ c s) (String.◌∷◌ d t) = same (code c) (code d) && has_prefix s t

-- `strings.TrimPrefix` of a prefix that is there
unfoldable pub drop_prefix : String → String → String
drop_prefix s String.[] = s
drop_prefix String.[] (String.◌∷◌ d t) = ""
drop_prefix (String.◌∷◌ c s) (String.◌∷◌ d t) = drop_prefix s t

-- `strings.Contains`
unfoldable pub contains : String → String → Bool
unfolding has_prefix
contains String.[] t = has_prefix "" t
contains (String.◌∷◌ c s) t = has_prefix (String.◌∷◌ c s) t || contains s t

-- `strings.HasSuffix`
unfoldable pub has_suffix : String → String → Bool
has_suffix String.[] t = "" == t
has_suffix (String.◌∷◌ c s) t = String.◌∷◌ c s == t || has_suffix s t

push_first : Char → List String → List String
push_first c [] = String.◌∷◌ c "" ∷ []
push_first c (part ∷ parts) = String.◌∷◌ c part ∷ parts

-- `strings.Split` by a separator of one character
unfoldable pub split : ℕ → String → List String
unfolding push_first
split sep String.[] = "" ∷ []
split sep (String.◌∷◌ c s) =
    let parts = split sep s in if same (code c) sep then "" ∷ parts else push_first c parts

abbrev pub keep_first : Char → Option (String × String) → Option (String × String)
keep_first c none = none
keep_first c (some (before, after)) = some (String.◌∷◌ c before, after)

-- `strings.SplitN(s, sep, 2)`: `none` where the separator does not occur
unfoldable pub cut : ℕ → String → Option (String × String)
cut sep String.[] = none
cut sep (String.◌∷◌ c s) =
    let rest = cut sep s in if same (code c) sep then some ("", s) else keep_first c rest
