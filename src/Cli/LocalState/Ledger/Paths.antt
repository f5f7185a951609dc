-- ===== src/Cli/LocalState/Ledger/Paths.antt =====
-- The index of a ledger gives the slugs of the records of a path.
use mdfly.Common.{
  if◌then◌else◌, Bool-cases, if_true, if_false, any, Str, str_eq, str_eq_iff, ◌≡◌, refl, sym, ap,
  ◌∙◌, inl, inr, Bool, false, ◌&&◌, ◌||◌, Option, none, some, List, [], ◌∷◌, ◌++◌, arith,
}
use mdfly.Common.Dict.{Dict, insert, lookup, lookup-insert}
use mdfly.Common.Members.{among, among-append}
use mdfly.Common.Split.{str_lt}
use mdfly.Common.Sort.{sort_stable, any-sort_stable}
use mdfly.Cli.LocalState.{Record}
use mdfly.Cli.LocalState.Ledger.{
  slugs_at, index_one, index_records, sort_index, new_ledger, slugs_for_path,
}

-- A record has been published from a path.
abbrev pub has_path : Str → Record → Bool
has_path path rec = elim rec.path [ none ↦ false | some p ↦ str_eq p path ]

-- Some record under a slug has been published from a path.
abbrev pub tracked_at : Dict Record → Str → Str → Bool
tracked_at records path slug = any (λ e. str_eq slug e.0 && has_path path e.1) records

slugs_at-insert :
    (path key : Str) (slugs : List Str) (index : Dict (List Str))
    → slugs_at path (insert key slugs index)
      ≡ (if str_eq key path then slugs else slugs_at path index)
unfolding slugs_at
slugs_at-insert path key slugs index = ground (arith, lookup-insert key path slugs index)

index_one-among :
    (path slug k : Str) (o : Option Str) (index : Dict (List Str))
    → among (slugs_at path (index_one slug o index)) k ≡ (
        among (slugs_at path index) k
        || (str_eq k slug && elim o [ none ↦ false | some p ↦ str_eq p path ]))
unfolding index_one
index_one-among path slug k none index = ground arith
index_one-among path slug k (some p) index = elim (Bool-cases (str_eq p path)) [
  | inl t ↦
      let at = (str_eq_iff p path).0 t in
      let slugs = slugs_at p index ++ (slug ∷ []) in
      let put = slugs_at-insert path p slugs index ∙ if_true slugs _ t in
      let old = ap (λ q. among (slugs_at q index) k) at in
      ap (λ l. among l k) put ∙ among-append (slugs_at p index) (slug ∷ []) k ∙ ground arith
  | inr f ↦
      let slugs = slugs_at p index ++ (slug ∷ []) in
      let put = slugs_at-insert path p slugs index ∙ if_false slugs _ f in
      ap (λ l. among l k) put ∙ ground arith
]

index_records-among :
    (path k : Str) (index : Dict (List Str)) (records : Dict Record)
    → among (slugs_at path (index_records index records)) k
      ≡ (among (slugs_at path index) k || tracked_at records path k)
unfolding index_records
index_records-among path k index [] = ground arith
index_records-among path k index ((slug, rec) ∷ records) = ground (
  arith,
  index_one-among path slug k rec.path index,
  index_records-among path k (index_one slug rec.path index) records,
)

slugs_at-cons :
    (path p : Str) (slugs : List Str) (index : Dict (List Str))
    → slugs_at path ((p, slugs) ∷ index) ≡ (if str_eq p path then slugs else slugs_at path index)
unfolding slugs_at lookup
slugs_at-cons path p slugs index = ground arith

sort_index-among :
    (path k : Str) (index : Dict (List Str))
    → among (slugs_at path (sort_index index)) k ≡ among (slugs_at path index) k
unfolding sort_index slugs_at lookup
sort_index-among path k [] = refl
sort_index-among path k ((p, slugs) ∷ index) = elim (Bool-cases (str_eq p path)) [
  | inl t ↦
      ap (λ l. among l k)
        (slugs_at-cons path p (sort_stable str_lt slugs) (sort_index index) ∙ if_true _ _ t)
      ∙ any-sort_stable str_lt (str_eq k) slugs
      ∙ ap (λ l. among l k) (sym (slugs_at-cons path p slugs index ∙ if_true _ _ t))
  | inr f ↦
      ap (λ l. among l k)
        (slugs_at-cons path p (sort_stable str_lt slugs) (sort_index index) ∙ if_false _ _ f)
      ∙ sort_index-among path k index
      ∙ ap (λ l. among l k) (sym (slugs_at-cons path p slugs index ∙ if_false _ _ f))
]

-- The slugs of a path are those of the records that were published from it.
pub slugs_for_path-tracked :
    (records : Dict Record) (path k : Str)
    → among (slugs_for_path (new_ledger records) path) k ≡ tracked_at records path k
unfolding slugs_for_path new_ledger
slugs_for_path-tracked records path k =
    sort_index-among path k (index_records [] records) ∙ index_records-among path k [] records
