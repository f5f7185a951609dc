-- ===== src/View/Pages/Laws.antt =====
-- The pages of files are those of the keys that a raw request serves.
use mdfly.Common.{
  Bool-cases, Option-cases, Str, codes, str_eq, str_eq_iff, is_empty, trim_right, trim, is_slash, ℕ,
  zero, suc, ◌≡◌, refl, sym, ◌∙◌, subst, ◌↔◌, inl, inr, true, false, some, some_inj, List, [], ◌∷◌,
  ◌++◌, arith,
}
use mdfly.Common.Dict.{Dict, lookup, keys}
use mdfly.Common.Trim.{trim_right-append, trim-right, trim_idem, trim-same}
use mdfly.FileTree.Classify.{file, dir, Kind, classify}
use mdfly.FileTree.Classify.Laws.{classify-IsAnswer, is_listed, IsAnswer}
use mdfly.Manifest.Build.{Manifest, ManifestFile}
use mdfly.Manifest.NestedKey.{nested_key, repeat, up_count}
use mdfly.Raw.Open.{raw_key}

repeat-trimmed :
    (n : ℕ) (r : Str)
    → is_empty r ≡ false
    → trim is_slash r ≡ r
    → trim_right is_slash r ≡ r
    → trim is_slash (repeat n (codes "../") ++ r) ≡ repeat n (codes "../") ++ r
unfolding repeat
repeat-trimmed zero r filled t ends = t
repeat-trimmed (suc n) r filled t ends =
    trim-same is_slash b'.' (b'.' ∷ b'/' ∷ (repeat n (codes "../") ++ r)) refl
      (trim_right-append is_slash (repeat (suc n) (codes "../")) r filled ends)

-- A key that a request asks for has no slash at either end.
nested_key-trimmed :
    (rest up : Str) {key : Str} → nested_key rest up ≡ some key → trim is_slash key ≡ key
unfolding nested_key
nested_key-trimmed rest up {key} h =
    let r = trim is_slash rest in
    elim (Bool-cases (is_empty r)) [
      | inl t ↦ let no = rw (t, nested_key) at h in cc
      | inr filled ↦ elim (Option-cases (up_count up)) [
        | inl n ↦ let no = rw (filled, n, nested_key) at h in cc
        | inr (n, e) ↦
            let same = rw (filled, e, nested_key) at h in
            subst (λ k. trim is_slash k ≡ k) (some_inj.0 same)
              (repeat-trimmed n r filled (trim_idem is_slash rest) (trim-right is_slash rest))
      ]
    ]

pub listed-lookup :
    {V : Type 0} (k : Str) (d : Dict V)
    → is_listed (keys d) k ≡ true
    → (v : V) × (lookup k d ≡ some v)
unfolding keys lookup
listed-lookup k [] h = cc
listed-lookup k ((j, v) ∷ d) h = elim (Bool-cases (str_eq j k)) [
  | inl t ↦ (v, rw (t, lookup) refl)
  | inr f ↦
      let (w, e) = listed-lookup k d (ground (arith, str_eq_iff k j, str_eq_iff j k)) in
      (w, rw (f, lookup) e)
]

lookup-listed :
    {V : Type 0} (k : Str) (d : Dict V) {v : V} → lookup k d ≡ some v → is_listed (keys d) k ≡ true
unfolding keys lookup
lookup-listed k [] h = cc
lookup-listed k ((j, w) ∷ d) {v} h =
    ground (arith, str_eq_iff k j, str_eq_iff j k, lookup-listed k d {v = v})

module _ (ks : List Str) (p : Str) where
  file-listed : (k : Kind) (key : Str) → IsAnswer ks p k key → (k ≡ file) ↔ (is_listed ks p ≡ true)
  file-listed file key h = (λ e. h.1, λ e. refl)
  file-listed dir key h = (λ e. cc, λ e. cc)
  file-listed Kind.not_found key h = (λ e. cc, λ e. cc)

nested_key-filled :
    (rest up : Str) {key : Str}
    → nested_key rest up ≡ some key
    → is_empty (trim is_slash rest) ≡ false
unfolding nested_key
nested_key-filled rest up h = elim (Bool-cases (is_empty (trim is_slash rest))) [
  | inl t ↦ let no = rw (t, nested_key) at h in cc
  | inr filled ↦ filled
]

raw_key-nested_key :
    (m : Manifest) (raw_path up : Str)
    → is_empty (trim is_slash raw_path) ≡ false
    → raw_key m raw_path up ≡ nested_key raw_path up
unfolding raw_key
raw_key-nested_key m raw_path up filled = rw (filled, raw_key) refl

-- A path that asks for a key shows the page of a file exactly if a raw request of the same path finds
-- a file.
pub view_file_iff_raw :
    (m : Manifest) (raw_path up : Str) {key : Str}
    → nested_key raw_path up ≡ some key
    → ((classify (keys m.files_by_path) key).kind ≡ file) ↔ (
        (k : Str) × ((f : ManifestFile) × ((raw_key m raw_path up ≡ some k)
            × (lookup k m.files_by_path ≡ some f))))
view_file_iff_raw m raw_path up {key} h =
    let ks = keys m.files_by_path in
    let raw = raw_key-nested_key m raw_path up (nested_key-filled raw_path up h) ∙ h in
    let answer = rw (nested_key-trimmed raw_path up h) at (classify-IsAnswer ks key) in
    let listed = file-listed ks key (classify ks key).kind (classify ks key).key answer in
    (
      λ e. let (f, l) = listed-lookup key m.files_by_path (listed.0 e) in (key, (f, (raw, l))),
      λ (k, (f, (r, l))).
          let same = some_inj.0 (sym raw ∙ r) in
          listed.1 (lookup-listed key m.files_by_path {v = f} (rw same l)),
    )
