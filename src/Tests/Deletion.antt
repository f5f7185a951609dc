-- ===== src/Tests/Deletion.antt =====
-- The deletion of a prefix at a store that is a list of keys and lists them one by one.
use mdfly.Common.{
  filter, Str, codes, str_eq, has_prefix, ◌≡◌, refl, sym, ap, ◌∙◌, subst, ◌≢◌, ◌⊎◌, inl, inr, Bool,
  true, false, ◌&&◌, Option, none, some, some_inj, List, [], ◌∷◌, arith,
}
use mdfly.Blobs.DeletePrefix.{Page, DeleteAnswer, answered, done, delete_prefix}
use mdfly.Blobs.DeletePrefix.Keys.{IsRemoved, without, among-filter}
use mdfly.Common.Members.{among}
use mdfly.Blobs.DeletePrefix.Laws.{delete_prefix-IsRemoved, delete_prefix_ends}
use mdfly.Manifest.Keys.{prefix_key}

abbrev first_page : List Str → Page
first_page [] = record { contents = []; truncated = false; next = none }
first_page (k ∷ []) = record { contents = k ∷ []; truncated = false; next = none }
first_page (k ∷ _ ∷ _) = record { contents = k ∷ []; truncated = true; next = none }

abbrev list_keys : List Str → Str → Option Str → Option Page
list_keys st prefix token = some (first_page (filter (λ k. has_prefix k prefix) st))

abbrev delete_keys : List Str → List Str → List Str × DeleteAnswer
delete_keys st ids = (without ids st, answered [])

abbrev ignore_token : Option Str → Str → Bool
ignore_token token k = true

first_page-among :
    (ks : List Str) (k : Str) → among (first_page ks).contents k ≡ true → among ks k ≡ true
first_page-among [] k h = h
first_page-among (j ∷ []) k h = h
first_page-among (j ∷ i ∷ ks) k h = ground arith

first_page_rest :
    (ks : List Str) (k : Str)
    → among ks k ≡ true
    → (among (first_page ks).contents k ≡ true)
      ⊎ (((first_page ks).truncated ≡ true) × (true ≡ true))
first_page_rest [] k h = cc
first_page_rest (j ∷ []) k h = inl h
first_page_rest (j ∷ i ∷ ks) k h = inr (refl, refl)

first_page_filled :
    (ks : List Str) → (first_page ks).truncated ≡ true → (first_page ks).contents ≢ []
first_page_filled [] t = cc
first_page_filled (j ∷ []) t = cc
first_page_filled (j ∷ i ∷ ks) t = λ e. cc

and_both : (a b : Bool) → (a && b) ≡ true → (a ≡ true) × (b ≡ true)
and_both a b h = ground arith

list_keys_lists :
    (st : List Str) (prefix : Str) (token : Option Str) (page : Page)
    → list_keys st prefix token ≡ some page
    → (k : Str) → among page.contents k ≡ true
    → (among st k ≡ true) × (has_prefix k prefix ≡ true)
list_keys_lists st prefix token page e k h =
    let under_prefix = filter (λ j. has_prefix j prefix) st in
    let here = subst (λ p. among p.contents k ≡ true) (sym (some_inj.0 e)) h in
    and_both (among st k) (has_prefix k prefix)
      (sym (among-filter (λ j. has_prefix j prefix) st k) ∙ first_page-among under_prefix k here)

list_keys_skips_none :
    (st : List Str) (prefix : Str) (token : Option Str) (page : Page)
    → list_keys st prefix token ≡ some page
    → (k : Str) → among st k ≡ true
    → has_prefix k prefix ≡ true
    → ignore_token token k ≡ true
    → (among page.contents k ≡ true) ⊎ ((page.truncated ≡ true) × (ignore_token page.next k ≡ true))
list_keys_skips_none st prefix token page e k a p t =
    let under_prefix = filter (λ j. has_prefix j prefix) st in
    let listed : among under_prefix k ≡ true =
      among-filter (λ j. has_prefix j prefix) st k ∙ rw (a, p) refl in
    subst (λ q. (among q.contents k ≡ true) ⊎ ((q.truncated ≡ true) × (true ≡ true))) (some_inj.0 e)
      (first_page_rest under_prefix k listed)

list_keys_goes_on :
    (st : List Str) (prefix : Str) (token : Option Str) (page : Page)
    → list_keys st prefix token ≡ some page
    → page.truncated ≡ true
    → page.contents ≢ []
list_keys_goes_on st prefix token page e =
    subst (λ q. q.truncated ≡ true → q.contents ≢ []) (some_inj.0 e)
      (first_page_filled (filter (λ j. has_prefix j prefix) st))

-- Three objects, two of them of the slug "abcd2345".
abbrev objects : List Str
objects =
    codes "documents/abcd2345/aa.md"
    ∷ codes "documents/abcd23456/cc.md"
    ∷ codes "documents/abcd2345/bb.png"
    ∷ []

deletion_runs :
    delete_prefix list_keys delete_keys 3 (codes "abcd2345") objects
    ≡ (codes "documents/abcd23456/cc.md" ∷ [], done)
unfolding delete_prefix has_prefix str_eq
deletion_runs = refl

delete_prefix-IsRemoved_example :
    IsRemoved
      (prefix_key (codes "abcd2345"))
      objects
      (delete_prefix list_keys delete_keys 3 (codes "abcd2345") objects).0
delete_prefix-IsRemoved_example =
    delete_prefix-IsRemoved list_keys delete_keys (λ st. st) ignore_token (λ k. refl)
      list_keys_lists list_keys_skips_none list_keys_goes_on (λ st ids e. refl) 3 (codes "abcd2345")
      objects (ap (λ r. r.1) deletion_runs)

delete_prefix_ends_example :
    (delete_prefix list_keys delete_keys 3 (codes "abcd2345") objects).1 ≡ done
unfolding has_prefix prefix_key
delete_prefix_ends_example =
    delete_prefix_ends list_keys delete_keys (λ st. st) ignore_token (λ k. refl) list_keys_lists
      list_keys_skips_none list_keys_goes_on (λ st ids e. refl)
      (λ st prefix token. (first_page (filter (λ k. has_prefix k prefix) st), refl))
      (λ st ids. refl) 3 (codes "abcd2345") objects (omega arith)
