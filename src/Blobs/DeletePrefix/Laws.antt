-- ===== src/Blobs/DeletePrefix/Laws.antt =====
-- What the loop over the pages removes, and that it ends, with an object store as S3 is documented.
use mdfly.Common.{
  Bool-cases, Option-cases, Str, has_prefix, ℕ, zero, suc, ◌<◌, ◌≡◌, refl, sym, ap, ◌∙◌, subst, ◌≢◌,
  ◌⊎◌, inl, inr, Bool, true, false, not, ◌&&◌, Option, none, some, List, [], ◌∷◌, arith,
}
use mdfly.Blobs.DeletePrefix.{
  Page, DeleteAnswer, answered, Ended, done, delete_prefix_from, delete_objects, refused,
  judge_delete, delete_prefix,
}
use mdfly.Manifest.Keys.{prefix_key}
use mdfly.Common.Members.{among}
use mdfly.Blobs.DeletePrefix.Keys.{
  IsRemoved, without, under, among-filter, under-filter-lt, some_member, without-nothing, same_rest,
  and_twice, and_not, no_less,
}

judge_delete-none :
    (ids : List Str) (a : DeleteAnswer) → judge_delete ids a ≡ none → a ≡ answered []
unfolding judge_delete
judge_delete-none ids refused h = cc
judge_delete-none ids (answered []) h = refl
judge_delete-none ids (answered (k ∷ ks)) h = cc

-- `lists` and `skips_none`: a page holds objects of the prefix, and between its token and the next one
-- it leaves none out; `goes_on`: a page that more follows is not empty; `deletes`: a deletion without
-- errors removes the objects that it names, and no others.
module _ {Store : Type 0} (list_objects : Store → Str → Option Str → Option Page)
    (delete_call : Store → List Str → Store × DeleteAnswer) (keys : Store → List Str)
    (after : Option Str → Str → Bool) (from_start : (k : Str) → after none k ≡ true)
    (lists : (st : Store) (prefix : Str) (token : Option Str) (page : Page)
      → list_objects st prefix token ≡ some page
      → (k : Str) → among page.contents k ≡ true
      → (among (keys st) k ≡ true) × (has_prefix k prefix ≡ true))
    (skips_none : (st : Store) (prefix : Str) (token : Option Str) (page : Page)
      → list_objects st prefix token ≡ some page
      → (k : Str) → among (keys st) k ≡ true
      → has_prefix k prefix ≡ true
      → after token k ≡ true
      → (among page.contents k ≡ true) ⊎ ((page.truncated ≡ true) × (after page.next k ≡ true)))
    (goes_on : (st : Store) (prefix : Str) (token : Option Str) (page : Page)
      → list_objects st prefix token ≡ some page
      → page.truncated ≡ true
      → page.contents ≢ [])
    (deletes : (st : Store) (ids : List Str)
      → (delete_call st ids).1 ≡ answered []
      → keys (delete_call st ids).0 ≡ without ids (keys st)) where
  delete_objects-keys :
      (st : Store) (ids : List Str)
      → (delete_objects list_objects delete_call st ids).1 ≡ none
      → keys (delete_objects list_objects delete_call st ids).0 ≡ without ids (keys st)
  unfolding delete_objects
  delete_objects-keys st [] h = sym (without-nothing (keys st))
  delete_objects-keys st (k ∷ ks) h =
      deletes st (k ∷ ks) (judge_delete-none (k ∷ ks) (delete_call st (k ∷ ks)).1 h)

  -- Every object of the prefix that is left lies behind the token.
  abbrev IsBehind : Str → Option Str → Store → Type 0
  IsBehind prefix token st =
      (k : Str) → among (keys st) k ≡ true → has_prefix k prefix ≡ true → after token k ≡ true

  module _ (prefix : Str) (token : Option Str) (st : Store) (page : Page)
      (listed : list_objects st prefix token ≡ some page) (behind : IsBehind prefix token st)
      (clean : (delete_objects list_objects delete_call st page.contents).1 ≡ none) where
    abbrev next_store : Store
    next_store = (delete_objects list_objects delete_call st page.contents).0

    next_keys :
        (k : Str) → among (keys next_store) k ≡ (among (keys st) k && not (among page.contents k))
    next_keys k =
        ap (λ ks. among ks k) (delete_objects-keys st page.contents clean)
        ∙ among-filter (λ k. not (among page.contents k)) (keys st) k

    last_page : page.truncated ≡ false → IsRemoved prefix (keys st) (keys next_store)
    last_page f k =
        next_keys k
        ∙ same_rest (among (keys st) k) (among page.contents k) (has_prefix k prefix)
            (λ c. (lists st prefix token page listed k c).1)
            (λ a p. elim (skips_none st prefix token page listed k a p (behind k a p)) [
              | inl c ↦ c
              | inr (t, _) ↦ let no = sym t ∙ f in cc
            ])

    next-IsBehind : IsBehind prefix page.next next_store
    next-IsBehind k m h =
        let (a, c) = and_not (among (keys st) k) (among page.contents k) (sym (next_keys k) ∙ m) in
        elim (skips_none st prefix token page listed k a h (behind k a h)) [
          | inl t ↦ let no = sym t ∙ c in cc
          | inr (_, n) ↦ n
        ]

    more_pages :
        (last : Store)
        → IsRemoved prefix (keys next_store) (keys last)
        → IsRemoved prefix (keys st) (keys last)
    more_pages last removed k =
        removed k
        ∙ ap (λ a. a && not (has_prefix k prefix)) (next_keys k)
        ∙ and_twice (among (keys st) k) (among page.contents k) (has_prefix k prefix)
            (λ c. (lists st prefix token page listed k c).1)

    fewer : page.truncated ≡ true → under prefix (keys next_store) < under prefix (keys st)
    fewer t =
        let (k, c) = some_member page.contents (goes_on st prefix token page listed t) in
        let (a, p) = lists st prefix token page listed k c in
        let out : not (among page.contents k) ≡ false = ap not c in
        subst (λ ks. under prefix ks < under prefix (keys st))
          (sym (delete_objects-keys st page.contents clean))
          (under-filter-lt (λ k. not (among page.contents k)) prefix (keys st) k a p out)

  abbrev run : ℕ → Str → Option Str → Store → Store × Ended
  run = delete_prefix_from list_objects delete_call

  delete_prefix_from-IsRemoved :
      (fuel : ℕ) (prefix : Str) (token : Option Str) (st : Store)
      → IsBehind prefix token st
      → (run fuel prefix token st).1 ≡ done
      → IsRemoved prefix (keys st) (keys (run fuel prefix token st).0)
  unfolding delete_prefix_from
  delete_prefix_from-IsRemoved zero prefix token st behind h = cc
  delete_prefix_from-IsRemoved (suc fuel) prefix token st behind h =
      elim (Option-cases (list_objects st prefix token)) [
        | inl n ↦ let no = rw (n, delete_prefix_from) at h in cc
        | inr (page, l) ↦
            let step = delete_objects list_objects delete_call st page.contents in
            elim (Option-cases step.1) [
              | inr (e, c) ↦ let no = rw (l, c, delete_prefix_from) at h in cc
              | inl c ↦ elim (Bool-cases page.truncated) [
                | inr f ↦
                    rw (l, c, f, delete_prefix_from) (last_page prefix token st page l behind c f)
                | inl t ↦
                    rw (l, c, t, delete_prefix_from)
                      (more_pages prefix token st page l behind c
                        (run fuel prefix page.next step.0).0
                        (delete_prefix_from-IsRemoved fuel prefix page.next step.0
                          (next-IsBehind prefix token st page l behind c)
                          (rw (l, c, t, delete_prefix_from) at h)))
              ]
            ]
      ]

  -- A deletion of a slug's blobs that ends without an error has removed every object under the slug's
  -- prefix, and no other object, with an object store whose pages hold objects of the prefix, leave none
  -- out, and are not empty where more follow, and whose deletions without errors remove what they name,
  -- and no others.
  pub delete_prefix-IsRemoved :
      (fuel : ℕ) (slug : Str) (st : Store)
      → (delete_prefix list_objects delete_call fuel slug st).1 ≡ done
      → IsRemoved
          (prefix_key slug)
          (keys st)
          (keys (delete_prefix list_objects delete_call fuel slug st).0)
  unfolding delete_prefix
  delete_prefix-IsRemoved fuel slug st h =
      delete_prefix_from-IsRemoved fuel (prefix_key slug) none st (λ k m p. from_start k) h

  module _
      (answers : (st : Store) (prefix : Str) (token : Option Str)
        → (page : Page) × (list_objects st prefix token ≡ some page))
      (succeeds : (st : Store) (ids : List Str) → (delete_call st ids).1 ≡ answered []) where
    clean_step :
        (st : Store) (ids : List Str) → (delete_objects list_objects delete_call st ids).1 ≡ none
    unfolding delete_objects judge_delete
    clean_step st [] = refl
    clean_step st (k ∷ ks) = ap (judge_delete (k ∷ ks)) (succeeds st (k ∷ ks))

    delete_prefix_from_ends :
        (fuel : ℕ) (prefix : Str) (token : Option Str) (st : Store)
        → IsBehind prefix token st
        → under prefix (keys st) < fuel
        → (run fuel prefix token st).1 ≡ done
    unfolding delete_prefix_from
    delete_prefix_from_ends zero prefix token st behind h =
        elim (no_less (under prefix (keys st)) h) [ ]
    delete_prefix_from_ends (suc fuel) prefix token st behind h =
        let (page, l) = answers st prefix token in
        let c = clean_step st page.contents in
        let st' = (delete_objects list_objects delete_call st page.contents).0 in
        elim (Bool-cases page.truncated) [
          | inr f ↦ rw (l, c, f, delete_prefix_from) refl
          | inl t ↦
              let less = fewer prefix token st page l behind c t in
              rw (l, c, t, delete_prefix_from)
                (delete_prefix_from_ends fuel prefix page.next st'
                  (next-IsBehind prefix token st page l behind c) (omega arith))
        ]

    -- Where every call gets through, the deletion of a slug's blobs ends without an error: one round more
    -- than there are objects under the slug's prefix is enough, with such an object store whose pages
    -- that more follows are not empty.
    pub delete_prefix_ends :
        (fuel : ℕ) (slug : Str) (st : Store)
        → under (prefix_key slug) (keys st) < fuel
        → (delete_prefix list_objects delete_call fuel slug st).1 ≡ done
    unfolding delete_prefix
    delete_prefix_ends fuel slug st h =
        delete_prefix_from_ends fuel (prefix_key slug) none st (λ k m p. from_start k) h
