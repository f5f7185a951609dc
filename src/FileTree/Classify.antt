-- ===== src/FileTree/Classify.antt =====
-- filetree.go: `Kind`, `Result` and `Classify`.
pub mod Laws
use mdfly.Common.{
  if◌then◌else◌, find, any, Str, codes, str_eq, is_empty, has_prefix, trim, is_slash, none, some,
  List, [], ◌++◌,
}

pub data Kind : Type 0 where
  not_found file dir : Kind

pub record Result : Type 0 where
  pub kind : Kind
  pub key : Str

unfoldable pub classify : List Str → Str → Result
unfolding str_eq is_empty has_prefix trim
classify ks req_path =
    let p = trim is_slash req_path in
    elim (find (str_eq p) ks) [
      | some k ↦ record { kind = file; key = k }
      | none ↦
          if is_empty p
          then record { kind = dir; key = [] }
          else if any (λ k. has_prefix k (p ++ codes "/")) ks
          then record { kind = dir; key = p }
          else record { kind = not_found; key = [] }
    ]
