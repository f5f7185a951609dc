-- ===== src/FileTree/Classify/Laws.antt =====
-- What `Classify` decides, said of the keys alone.
use mdfly.FileTree.Classify.{Kind, not_found, file, dir, classify}
use mdfly.Common.{
  Bool-cases, Option-cases, find, any, Str, codes, str_eq, str_eq_iff, is_empty, is_empty_iff,
  has_prefix, trim, is_slash, ◌≡◌, refl, sym, inl, inr, Bool, true, false, ◌||◌, none, some, List,
  [], ◌∷◌, ◌++◌, arith,
}
use mdfly.Common.Lookup.{any-true_of_find, find-holds}

-- The key, or a folder of one.
abbrev pub is_listed : List Str → Str → Bool
is_listed ks p = any (str_eq p) ks

abbrev pub is_folder : List Str → Str → Bool
is_folder ks p = is_empty p || any (λ k. has_prefix k (p ++ codes "/")) ks

-- What a path addresses: its trimmed form as a key, else as a folder, else nothing.
abbrev pub IsAnswer : List Str → Str → Kind → Str → Type 0
IsAnswer ks p file k = (k ≡ p) × (is_listed ks p ≡ true)
IsAnswer ks p dir k = (k ≡ p) × ((is_listed ks p ≡ false) × (is_folder ks p ≡ true))
IsAnswer ks p not_found k = (k ≡ []) × ((is_listed ks p ≡ false) × (is_folder ks p ≡ false))

find-any : (p : Str) (ks : List Str) → find (str_eq p) ks ≡ none → any (str_eq p) ks ≡ false
find-any p [] h = refl
find-any p (k ∷ ks) h = ground (arith, find-any p ks)

find_self :
    (p : Str) (ks : List Str) {k : Str}
    → find (str_eq p) ks ≡ some k
    → (k ≡ p) × (any (str_eq p) ks ≡ true)
find_self p ks {k} h =
    (sym ((str_eq_iff p k).0 (find-holds (str_eq p) ks h)), any-true_of_find (str_eq p) ks h)

-- A request is answered by the file of its trimmed path where the manifest has that key, otherwise by
-- the folder of that name where some key lies under it (or the path is empty), otherwise by nothing.
pub classify-IsAnswer :
    (ks : List Str) (req_path : Str)
    → IsAnswer ks (trim is_slash req_path) (classify ks req_path).kind (classify ks req_path).key
unfolding classify
classify-IsAnswer ks req_path =
    let p = trim is_slash req_path in
    elim (Option-cases (find (str_eq p) ks)) [
      | inr (k, e) ↦ rw (e, classify) (find_self p ks e)
      | inl e ↦
          let absent = find-any p ks e in
          elim (Bool-cases (is_empty p)) [
            | inl t ↦ rw (e, t, classify) (sym ((is_empty_iff p).0 t), (absent, ground arith))
            | inr f ↦ elim (Bool-cases (any (λ k. has_prefix k (p ++ codes "/")) ks)) [
              | inl t ↦ rw (e, f, t, classify) (refl, (absent, ground arith))
              | inr g ↦ rw (e, f, g, classify) (refl, (absent, ground arith))
            ]
          ]
    ]
