-- ===== src/Common/Paths.antt =====
-- `strings.Split(s, "/")`, and `path.IsAbs` and `path.Join` of Go's standard library.
use Prim.Native.Char.{Char, code}
use Prim.Native.String.{String, ◌++◌ as append}
use mathlib.Core.Bool.{Bool, false}
use mathlib.Core.List.{List, [], ◌∷◌, ◌++◌}
use taskcluster_multistage_d.Common.Tests.{◌==◌, if◌then◌else◌}
use taskcluster_multistage_d.Common.Maps.{str_eq}

abbrev pub extend_first : Char → List String → List String
extend_first c [] = []
extend_first c (part ∷ parts) = String.◌∷◌ c part ∷ parts

unfoldable pub split_slash : String → List String
split_slash String.[] = "" ∷ []
split_slash (String.◌∷◌ c s) =
    let parts = split_slash s in if code c == b'/' then "" ∷ parts else extend_first c parts

unfoldable pub is_abs : String → Bool
is_abs String.[] = false
is_abs (String.◌∷◌ c s) = code c == b'/'

abbrev pub drop_last : List String → List String
drop_last [] = []
drop_last (x ∷ []) = []
drop_last (x ∷ y ∷ xs) = x ∷ drop_last (y ∷ xs)

-- `path.Clean` of a path that begins with a slash, part by part: `kept` are the parts so far.
unfoldable pub clean_parts : List String → List String → List String
clean_parts kept [] = kept
clean_parts kept (part ∷ parts) =
    clean_parts
      (if str_eq part ""
        then kept
        else if str_eq part "."
        then kept
        else if str_eq part ".."
        then drop_last kept
        else kept ++ part ∷ [])
      parts

unfoldable pub join_parts : List String → String
join_parts [] = ""
join_parts (part ∷ parts) = append "/" (append part (join_parts parts))

-- `path.Join(root, rel)` where `root` begins with a slash and has the parts `root_parts`.
unfoldable pub join_rooted : List String → String → String
unfolding clean_parts join_parts split_slash
join_rooted root_parts rel = elim (clean_parts root_parts (split_slash rel)) [
  | [] ↦ "/"
  | part ∷ parts ↦ join_parts (part ∷ parts)
]
