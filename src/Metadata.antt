-- ===== src/Metadata.antt =====
-- pkg/_internal/metadata: annotations, labels and finalizers of an object.
pub mod Annotations
pub mod Finalizers
pub mod Same
use Prim.Native.String
use mathlib.Core.Option
use kcp_glbc.Prelude.{
  ℕ, String, code, List, [], ◌∷◌, ◌++◌, Option, none, some, Bool, true, false, ◌&&◌, ◌||◌, not,
  Dict, lookup, put, delete, has, is_some, contains, is_empty, any, leb, same, ◌==◌, if◌then◌else◌,
}
use kcp_glbc.Api.{ObjectMeta}

-- `unicode.IsSpace`
is_space : ℕ → Bool
is_space c =
    (leb 9 c && leb c 13)
    || same c 32
    || same c 0x85
    || same c 0xa0
    || same c 0x1680
    || (leb 0x2000 c && leb c 0x200a)
    || same c 0x2028
    || same c 0x2029
    || same c 0x202f
    || same c 0x205f
    || same c 0x3000

trim_left : String → String
trim_left String.[] = ""
trim_left (String.◌∷◌ c s) =
    let rest = trim_left s in if is_space (code c) then rest else String.◌∷◌ c s

trim_right : String → String
trim_right String.[] = ""
trim_right (String.◌∷◌ c s) =
    let rest = trim_right s in if is_space (code c) && rest == "" then "" else String.◌∷◌ c rest

-- `strings.TrimSpace`
unfoldable pub trim_space : String → String
unfolding trim_left trim_right is_space
trim_space s = trim_right (trim_left s)

-- annotations.go

unfoldable pub has_annotation : ObjectMeta → String → Bool
has_annotation obj key = has (trim_space key) obj.annotations

or_empty : Option String → String
or_empty none = ""
or_empty (some s) = s

unfoldable pub get_annotation : ObjectMeta → String → String
unfolding has_annotation or_empty
get_annotation obj key =
    if has_annotation obj key then or_empty (lookup key obj.annotations) else ""

unfoldable pub matches_containing : String → Dict String → Dict String
matches_containing key [] = []
matches_containing key ((k, v) ∷ m) =
    let rest = matches_containing key m in if contains k key then (k, v) ∷ rest else rest

unfoldable pub has_annotations_containing : ObjectMeta → String → Bool × Dict String
unfolding matches_containing
has_annotations_containing obj key =
    let found = matches_containing key obj.annotations in (not (is_empty found), found)

-- An entry that is there already with its value is left alone.
unfoldable pub put_new : String → String → Dict String → Dict String
put_new key value m = elim (lookup key m) [
  | none ↦ put key value m
  | some old ↦ if old == value then m else put key value m
]

unfoldable pub add_annotation : ObjectMeta → String → String → ObjectMeta
unfolding put_new
add_annotation obj key value = record obj { annotations = put_new key value obj.annotations }

unfoldable pub remove_annotation : ObjectMeta → String → ObjectMeta
remove_annotation obj key = record obj { annotations = delete key obj.annotations }

unfoldable pub copy_matching : (String → String → Bool) → Dict String → Dict String → Dict String
copy_matching p [] to = to
copy_matching p ((k, v) ∷ from) to = copy_matching p from (if p k v then put k v to else to)

-- The annotations of `from` that fulfil the predicate are copied over those of `to`; the flag says
-- whether there was one.
unfoldable pub copy_annotations_predicate :
    ObjectMeta → ObjectMeta → (String → String → Bool) → ObjectMeta × Bool
unfolding copy_matching
copy_annotations_predicate from to p = (
  record to { annotations = copy_matching p from.annotations to.annotations },
  any (λ (entry : String × String). p entry.0 entry.1) from.annotations,
)

unfoldable pub copy_annotation : ObjectMeta → ObjectMeta → String → ObjectMeta × Bool
unfolding copy_annotations_predicate
copy_annotation from to key = copy_annotations_predicate from to (λ k v. k == key)

-- labels.go

unfoldable pub has_label : ObjectMeta → String → Bool
has_label obj key = has key obj.labels

unfoldable pub has_labels_containing : ObjectMeta → String → Bool × Dict String
unfolding matches_containing
has_labels_containing obj key =
    let found = matches_containing key obj.labels in (not (is_empty found), found)

unfoldable pub add_label : ObjectMeta → String → String → ObjectMeta
unfolding put_new
add_label obj key value = record obj { labels = put_new key value obj.labels }

unfoldable pub remove_label : ObjectMeta → String → ObjectMeta
remove_label obj key = record obj { labels = delete key obj.labels }

-- finalizers.go

unfoldable pub contains_string : List String → String → Bool
contains_string [] s = false
contains_string (item ∷ items) s = item == s || contains_string items s

unfoldable pub has_finalizer : ObjectMeta → String → Bool
unfolding contains_string
has_finalizer obj finalizer = contains_string obj.finalizers finalizer

unfoldable pub add_finalizer : ObjectMeta → String → ObjectMeta
unfolding has_finalizer
add_finalizer obj finalizer =
    if has_finalizer obj finalizer
    then obj
    else record obj { finalizers = obj.finalizers ++ finalizer ∷ [] }

-- The last entry of a list that is not empty, and the entries before it.
last_init : String → List String → String × List String
last_init x [] = (x, [])
last_init x (y ∷ ys) = let (last, before) = last_init y ys in (last, x ∷ before)

fill : List String → List String
unfolding last_init
fill [] = []
fill (x ∷ xs) = let (last, before) = last_init x xs in last ∷ before

-- The entry found is overwritten by the last one, and the slice is cut by one.
unfoldable pub swap_remove : String → List String → List String
unfolding fill
swap_remove s [] = []
swap_remove s (x ∷ xs) = if x == s then fill xs else x ∷ swap_remove s xs

unfoldable pub remove_finalizer : ObjectMeta → String → ObjectMeta
unfolding swap_remove
remove_finalizer obj finalizer = record obj { finalizers = swap_remove finalizer obj.finalizers }

-- pkg/_internal/slice: `RemoveString` keeps the order.
unfoldable pub remove_string : List String → String → List String
remove_string [] s = []
remove_string (item ∷ items) s =
    let rest = remove_string items s in if item == s then rest else item ∷ rest
