-- ===== src/Cli/LocalState/Persist/Laws.antt =====
-- A publish is persisted whole, or leaves the records as they were.
use mdfly.Common.{
  if◌then◌else◌, if_false, Str, str_eq, ℕ, ◌≡◌, refl, ap, ◌∙◌, false, Option, none, some,
}
use mdfly.Common.Utf8.{valid}
use mdfly.Common.Dict.{insert, erase, lookup, lookup-insert, lookup-erase}
use mdfly.Cli.Limits.{Bundle}
use mdfly.Cli.LocalState.{
  Record, Codec, Disk, Calls, StoreError, upsert, prune, save_token, delete_token,
}
use mdfly.Cli.LocalState.Laws.{
  IsText, IsOptText, IsTextRecord, insert-AllText, erase-AllText, ReadsBack, records_of, tokens_of,
  Applies, AppliesToTokens, mutate-Applies, mutate_credentials-Applies,
}
use mdfly.Cli.LocalState.Persist.{
  path_of, Input, CommitResponse, published_record, roll_back, record_publish, persist_publish,
}
use mdfly.Publish.Commit.{commit}

-- Without an error a disk has the record and the token under the slug, and all else as it was; with one
-- it has the records as they were, and the tokens of the other slugs.
abbrev pub Persisted : Codec → Record → Str → Disk → Disk × Option StoreError → Type 0
Persisted codec rec token d (d', none) =
    ((slug : Str)
      → lookup slug (records_of codec d')
        ≡ (if str_eq rec.slug slug then some rec else lookup slug (records_of codec d)))
    × ((slug : Str)
        → lookup slug (tokens_of codec d')
          ≡ (if str_eq rec.slug slug then some token else lookup slug (tokens_of codec d)))
Persisted codec rec token d (d', some e) =
    (records_of codec d' ≡ records_of codec d)
    × ((slug : Str)
        → str_eq rec.slug slug ≡ false
        → lookup slug (tokens_of codec d') ≡ lookup slug (tokens_of codec d))

-- What a commit answers, and the path of the source, is text.
abbrev pub IsTextInput : Option Str → Input → CommitResponse → Type 0
IsTextInput cwd src commit =
    IsText commit.slug
    × (IsText commit.url × (IsText commit.manifest_hash × IsOptText (path_of cwd src)))

published_record-IsTextRecord :
    (now : ℕ) (cwd : Option Str) (src : Input) (bundle : Bundle) (commit : CommitResponse)
    → IsTextInput cwd src commit
    → IsTextRecord (published_record now cwd src bundle commit)
unfolding published_record valid
published_record-IsTextRecord now cwd src bundle commit (s, (u, (h, p))) = (s, (u, (h, (refl, p))))

module _ (codec : Codec) (back : ReadsBack codec) where
  pub upsert-Applies :
      (c : Calls) (rec : Record) (d : Disk)
      → IsTextRecord rec
      → Applies codec (λ records. insert rec.slug rec records) d (upsert codec c rec d)
  unfolding upsert
  upsert-Applies c rec d fit =
      mutate-Applies codec back c (λ records. insert rec.slug rec records)
        (λ rs a. insert-AllText IsTextRecord rec.slug rec rs fit.0 fit a) d

  pub prune-Applies :
      (c : Calls) (slug : Str) (d : Disk)
      → Applies codec (λ records. erase slug records) d (prune codec c slug d)
  unfolding prune
  prune-Applies c slug d =
      mutate-Applies codec back c (λ records. erase slug records)
        (λ rs a. erase-AllText IsTextRecord slug rs a) d

  pub save_token-Applies :
      (c : Calls) (slug token : Str) (d : Disk)
      → IsText slug
      → IsText token
      → AppliesToTokens codec
          (λ tokens. insert slug token tokens)
          d
          (save_token codec c slug token d)
  unfolding save_token
  save_token-Applies c slug token d p q =
      mutate_credentials-Applies codec back c (λ tokens. insert slug token tokens)
        (λ ts a. insert-AllText IsText slug token ts p q a) d

  pub delete_token-Applies :
      (c : Calls) (slug : Str) (d : Disk)
      → AppliesToTokens codec (λ tokens. erase slug tokens) d (delete_token codec c slug d)
  unfolding delete_token
  delete_token-Applies c slug d =
      mutate_credentials-Applies codec back c (λ tokens. erase slug tokens)
        (λ ts a. erase-AllText IsText slug ts a) d

  -- A token that is deleted, or not, changes that of no other slug, and no record.
  pub after_delete :
      (slug : Str) (d : Disk) (r : Disk × Option StoreError)
      → AppliesToTokens codec (λ tokens. erase slug tokens) d r
      → (records_of codec r.0 ≡ records_of codec d)
        × ((other : Str)
            → str_eq slug other ≡ false
            → lookup other (tokens_of codec r.0) ≡ lookup other (tokens_of codec d))
  after_delete slug d (d', some e) (t, r) = (r, λ other n. ap (lookup other) t)
  after_delete slug d (d', none) (t, r) =
      (r, λ other n. t other ∙ lookup-erase slug other (tokens_of codec d) ∙ if_false none _ n)

  module _ (rec : Record) (token : Str) (d : Disk) where
    roll_back-Persisted :
        (c : Calls) (saved : Disk) (r : Disk × Option StoreError)
        → AppliesToTokens codec (λ tokens. insert rec.slug token tokens) d (saved, none)
        → Applies codec (λ records. insert rec.slug rec records) saved r
        → Persisted codec rec token d (roll_back codec c rec.slug r)
    unfolding roll_back
    roll_back-Persisted c saved (d', none) (t, s) (r, k) = (
      λ slug.
          r slug
          ∙ ap (λ x. lookup slug (insert rec.slug rec x)) s
          ∙ lookup-insert rec.slug slug rec (records_of codec d),
      λ slug. ap (lookup slug) k ∙ t slug ∙ lookup-insert rec.slug slug token (tokens_of codec d),
    )
    roll_back-Persisted c saved (d', some e) (t, s) (r, k) =
        let (a, b) =
          after_delete rec.slug d' (delete_token codec c rec.slug d')
            (delete_token-Applies c rec.slug d') in
        (
          a ∙ r ∙ s,
          λ slug n.
              b slug n
              ∙ ap (lookup slug) k
              ∙ t slug
              ∙ lookup-insert rec.slug slug token (tokens_of codec d)
              ∙ if_false (some token) _ n,
        )

    record_publish-Persisted :
        (at_record at_rollback : Calls) (r : Disk × Option StoreError)
        → IsTextRecord rec
        → AppliesToTokens codec (λ tokens. insert rec.slug token tokens) d r
        → Persisted codec rec token d (record_publish codec at_record at_rollback rec r)
    unfolding record_publish
    record_publish-Persisted at_record at_rollback (d', some e) fit (t, r) =
        (r, λ slug n. ap (lookup slug) t)
    record_publish-Persisted at_record at_rollback (d', none) fit h =
        roll_back-Persisted at_rollback d' (upsert codec at_record rec d') h
          (upsert-Applies at_record rec d' fit)

  -- A publish that is persisted without an error has left its record and its Edit Token under its slug,
  -- and every other record and token as it was; one that is persisted with an error has left all
  -- records as they were, and the tokens of all other slugs; if what
  -- is stored is text, and JSON reads back the maps of text that it wrote.
  pub persist_publish-Persisted :
      (at_token at_record at_rollback : Calls) (now : ℕ) (cwd : Option Str) (src : Input)
      (bundle : Bundle) (commit : CommitResponse) (token : Str) (d : Disk)
      → IsTextInput cwd src commit
      → IsText token
      → Persisted codec
          (published_record now cwd src bundle commit)
          token
          d
          (persist_publish codec at_token at_record at_rollback now cwd src bundle commit token d)
  unfolding persist_publish published_record
  persist_publish-Persisted at_token at_record at_rollback now cwd src bundle commit token d fit
        is_text =
      record_publish-Persisted (published_record now cwd src bundle commit) token d at_record
        at_rollback (save_token codec at_token commit.slug token d)
        (published_record-IsTextRecord now cwd src bundle commit fit)
        (save_token-Applies at_token commit.slug token d fit.0 is_text)
