-- ===== src/Common/Paths.antt =====
-- The functions of `path` and `path/filepath` on Unix, on the elements of a path.
use mathlib.Core.Bool.{Bool, false, not, ◌&&◌, ◌||◌}
use mathlib.Core.List.{List, [], ◌∷◌, ◌++◌, map}
use mathlib.Core.Option.{Option, none, some}
use mdfly.Common.Bools.{◌==◌, if◌then◌else◌}
use mdfly.Common.Lists.{filter}
use mdfly.Common.Bytes.{Str, codes, str_eq, is_empty, has_byte, trim_right, is_slash}
use mdfly.Common.Split.{split, join}

unfoldable pub after_slashes : Str → Str
unfolding has_byte
after_slashes [] = []
after_slashes (c ∷ s) = let rest = after_slashes s in if has_byte b'/' (c ∷ s) then rest else c ∷ s

-- `path.Base`
unfoldable pub base : Str → Str
unfolding is_empty after_slashes trim_right
base p =
    let last = after_slashes (trim_right is_slash p) in
    if is_empty p then codes "." else if is_empty last then codes "/" else last

-- `path.IsAbs`
unfoldable pub is_abs : Str → Bool
is_abs [] = false
is_abs (c ∷ s) = c == b'/'

-- Behind `..`.
unfoldable pub gone_up : Bool → List Str → List Str
unfolding str_eq
gone_up rooted [] = if rooted then [] else codes ".." ∷ []
gone_up rooted (x ∷ out) = if str_eq x (codes "..") then codes ".." ∷ x ∷ out else out

-- The elements kept by `path.Clean`, the last first.
unfoldable pub clean_onto : Bool → List Str → List Str → List Str
unfolding is_empty str_eq gone_up
clean_onto rooted out [] = out
clean_onto rooted out (seg ∷ segs) =
    let next =
      if is_empty seg || str_eq seg (codes ".")
      then out
      else if str_eq seg (codes "..")
      then gone_up rooted out
      else seg ∷ out in
    clean_onto rooted next segs

unfoldable pub rev_onto : List Str → List Str → List Str
rev_onto out [] = out
rev_onto out (x ∷ xs) = rev_onto (x ∷ out) xs

-- `path.Clean`
unfoldable pub clean : Str → Str
unfolding is_empty is_abs clean_onto rev_onto split join
clean p =
    let body = join b'/' (rev_onto [] (clean_onto (is_abs p) [] (split b'/' p))) in
    if is_abs p then b'/' ∷ body else if is_empty body then codes "." else body

-- `path.Join`
unfoldable pub join_paths : List Str → Str
unfolding is_empty join clean
join_paths ps = elim (filter (λ p. not (is_empty p)) ps) [
  | [] ↦ []
  | x ∷ xs ↦ clean (join b'/' (x ∷ xs))
]

-- `path.Dir`: what stands up to the last slash, cleaned.
unfoldable pub up_to_slash : Str → Str
unfolding has_byte
up_to_slash [] = []
up_to_slash (c ∷ s) = let rest = up_to_slash s in if has_byte b'/' (c ∷ s) then c ∷ rest else []

unfoldable pub dir_of : Str → Str
unfolding up_to_slash clean
dir_of p = clean (up_to_slash p)

-- The elements of a cleaned path; an absolute one has an empty element in front.
unfoldable pub elements : Str → List Str
unfolding is_empty str_eq split
elements p = if is_empty p then [] else if str_eq p (codes "/") then [] ∷ [] else split b'/' p

-- From the elements `bs` to `ts`: none where the base goes up from a place that is not known.
unfoldable pub rel_elements : List Str → List Str → Option (List Str)
unfolding str_eq
rel_elements [] ts = some ts
rel_elements bs [] = some (map (λ b. codes "..") bs)
rel_elements (b ∷ bs) (t ∷ ts) =
    let further = rel_elements bs ts in
    if str_eq b t
    then further
    else if str_eq b (codes "..")
    then none
    else some (map (λ b. codes "..") (b ∷ bs) ++ (t ∷ ts))

-- `filepath.Rel`
unfoldable pub rel : Str → Str → Option Str
unfolding clean str_eq is_abs elements rel_elements join
rel base_path target =
    let c = clean base_path in
    let t = clean target in
    let b = if str_eq c (codes ".") then [] else c in
    if str_eq c t
    then some (codes ".")
    else if (is_abs b && not (is_abs t)) || (not (is_abs b) && is_abs t)
    then none
    else elim (rel_elements (elements b) (elements t)) [
      | none ↦ none
      | some es ↦ some (join b'/' es)
    ]
