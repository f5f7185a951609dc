-- ===== src/FileTree/Crumbs.antt =====
-- filetree.go: the path from the root of a bundle to a page, `Crumb` and `Breadcrumb`.
pub mod Laws
use mdfly.Common.{
  ◌==◌, if◌then◌else◌, length, take, Str, is_empty, trim, is_slash, ℕ, ◌+◌, ◌-◌, Bool, true, false,
  List, [], ◌∷◌,
}
use mdfly.Common.Split.{split, join}

pub record Crumb : Type 0 where
  pub name : Str
  pub path : Str
  pub is_current : Bool

-- The loop over the segments from the index `i` on; `segs` is not empty, so that its last index is
-- one below its length.
unfoldable pub crumbs_from : List Str → ℕ → List Str → List Crumb
unfolding join
crumbs_from segs i [] = []
crumbs_from segs i (seg ∷ rest) =
    record { name = seg; path = join b'/' (take (i + 1) segs); is_current = i == length segs - 1 }
    ∷ crumbs_from segs (i + 1) rest

abbrev pub home : Bool → Crumb
home current = record { name = []; path = []; is_current = current }

unfoldable pub breadcrumb : Str → List Crumb
unfolding trim is_empty split crumbs_from
breadcrumb key =
    let k = trim is_slash key in
    if is_empty k then home true ∷ [] else home false ∷ crumbs_from (split b'/' k) 0 (split b'/' k)
