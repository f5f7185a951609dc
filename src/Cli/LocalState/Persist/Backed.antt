-- ===== src/Cli/LocalState/Persist/Backed.antt =====
-- A record that says that its Edit Token is stored, and the token.
use mdfly.Common.Utf8.{valid}
use mdfly.Common.{
  if◌then◌else◌, Bool-cases, if_true, if_false, Str, str_eq, str_eq_iff, str_eq_refl, is_empty, ℕ,
  ◌≡◌, refl, sym, ap, ◌∙◌, subst, inl, inr, true, false, Option, none, some, [], ◌∷◌, arith,
}
use mathlib.Core.Option.{some-injective}
use mdfly.Common.Dict.{Dict, insert, erase, lookup, lookup-insert, lookup-erase}
use mdfly.Cli.Limits.{Bundle}
use mdfly.Cli.LocalState.{
  Record, Codec, Disk, Calls, StoreError, Answer, got, broke, upsert, prune, delete_token,
  read_state,
}
use mdfly.Cli.LocalState.Ledger.{as_ledger, get, load, new_ledger}
use mdfly.Cli.LocalState.Laws.{
  ReadsBack, records_of, tokens_of, Applies, IsText, IsTextRecord, AllText, records_of-AllText,
  read_state-Reads, decoded, Reads,
}
use mdfly.Cli.LocalState.Persist.{
  Input, CommitResponse, published_record, persist_publish, persist_update, update_ledger,
  prune_local, base_record, updated_record,
}
use mdfly.Cli.LocalState.Persist.Laws.{
  IsTextInput, Persisted, persist_publish-Persisted, upsert-Applies, prune-Applies,
  delete_token-Applies, after_delete,
}
use mdfly.Publish.Commit.{commit}

abbrev pub Token : Codec → Disk → Str → Type 0
Token codec d slug = (token : Str) × (lookup slug (tokens_of codec d) ≡ some token)

-- Every record stands under its slug, and its token is in the credentials if it has HasToken.
abbrev pub IsBacked : Codec → Disk → Type 0
IsBacked codec d =
    (slug : Str) (rec : Record)
    → lookup slug (records_of codec d) ≡ some rec
    → (rec.slug ≡ slug) × (rec.has_token ≡ true → Token codec d slug)

-- What the command line does to the local state: a publish of a slug that is not tracked, an update with
-- a token that is empty or stored, and a removal whose record goes. What is stored is text. Its calls
-- may fail otherwise.
pub data Change (codec : Codec) (d : Disk) : Disk → Type 0 where
  published :
      (at_token at_record at_rollback : Calls) (now : ℕ) (cwd : Option Str) (src : Input)
      (bundle : Bundle) (commit : CommitResponse) (token : Str)
      → IsTextInput cwd src commit
      → IsText token
      → lookup commit.slug (records_of codec d) ≡ none
      → (d' : Disk)
      → d'
        ≡ (persist_publish codec at_token at_record at_rollback now cwd src bundle commit token d).0
      → Change codec d d'
  updated :
      (at_load at_record : Calls) (now : ℕ) (cwd : Option Str) (src : Input) (token : Str)
      (bundle : Bundle) (commit : CommitResponse)
      → IsTextInput cwd src commit
      → (is_empty token ≡ false → Token codec d commit.slug)
      → (d' : Disk)
      → d' ≡ (persist_update codec at_load at_record now cwd src token bundle commit d).0
      → Change codec d d'
  pruned :
      (at_record at_token : Calls) (slug : Str)
      → (prune codec at_record slug d).1 ≡ none
      → (d' : Disk) → d' ≡ prune_local codec at_record at_token slug d
      → Change codec d d'

lookup-AllText :
    (T : Record → Type 0) (k : Str) (d : Dict Record)
    → AllText T d
    → (rec : Record) → lookup k d ≡ some rec
    → T rec
unfolding lookup
lookup-AllText T k [] a rec l = cc
lookup-AllText T k ((j, w) ∷ d) a rec l = elim (Bool-cases (str_eq j k)) [
  | inl t ↦ subst T (some-injective w rec (rw (t, lookup) at l)) a.0.1
  | inr f ↦ lookup-AllText T k d a.1 rec (rw (f, lookup) at l)
]

updated-IsTextRecord :
    (now : ℕ) (cwd : Option Str) (src : Input) (token : Str) (bundle : Bundle)
    (commit : CommitResponse) (old : Option Record)
    → IsTextInput cwd src commit
    → ((rec : Record) → old ≡ some rec → IsTextRecord rec)
    → IsTextRecord
        (updated_record now cwd src bundle commit (base_record now commit.slug token old))
unfolding updated_record base_record valid
updated-IsTextRecord now cwd src token bundle commit none (s, (u, (h, p))) known =
    (s, (u, (h, (refl, p))))
updated-IsTextRecord now cwd src token bundle commit (some rec) (s, (u, (h, p))) known =
    let (slug, (_, (_, (tier, _)))) = known rec refl in (slug, (u, (h, (tier, p))))

module _ (codec : Codec) (d : Disk) (backed : IsBacked codec d) where
  -- The records stay, and the tokens of those that have one.
  same_records-IsBacked :
      (d' : Disk)
      → records_of codec d' ≡ records_of codec d
      → ((slug : Str) (rec : Record)
          → lookup slug (records_of codec d) ≡ some rec
          → lookup slug (tokens_of codec d') ≡ lookup slug (tokens_of codec d))
      → IsBacked codec d'
  same_records-IsBacked d' r t slug rec l =
      let l' = ap (lookup slug) (sym r) ∙ l in
      let (k, b) = backed slug rec l' in
      (k, λ h. let (token, e) = b h in (token, t slug rec l' ∙ e))

  -- A record is put in, with its token if it has HasToken.
  put_record-IsBacked :
      (rec : Record) (d' : Disk)
      → ((slug : Str)
          → lookup slug (records_of codec d')
            ≡ (if str_eq rec.slug slug then some rec else lookup slug (records_of codec d)))
      → (rec.has_token ≡ true → Token codec d' rec.slug)
      → ((slug : Str)
          → str_eq rec.slug slug ≡ false
          → lookup slug (tokens_of codec d') ≡ lookup slug (tokens_of codec d))
      → IsBacked codec d'
  put_record-IsBacked rec d' r own t slug old l = elim (Bool-cases (str_eq rec.slug slug)) [
    | inl same ↦
        let at = (str_eq_iff rec.slug slug).0 same in
        let is_rec = some-injective rec old (sym (r slug ∙ if_true (some rec) _ same) ∙ l) in
        (
          ap (λ x. x.slug) (sym is_rec) ∙ at,
          λ h. subst (Token codec d') at (own (ap (λ x. x.has_token) is_rec ∙ h)),
        )
    | inr other ↦
        let (k, b) = backed slug old (sym (r slug ∙ if_false (some rec) _ other) ∙ l) in
        (k, λ h. let (token, e) = b h in (token, t slug other ∙ e))
  ]

  Persisted-IsBacked :
      (rec : Record) (token : Str) (r : Disk × Option StoreError)
      → lookup rec.slug (records_of codec d) ≡ none
      → Persisted codec rec token d r
      → IsBacked codec r.0
  Persisted-IsBacked rec token (d', none) untracked (r, t) =
      put_record-IsBacked rec d' r
        (λ h. (token, t rec.slug ∙ if_true (some token) _ (str_eq_refl rec.slug)))
        (λ slug other. t slug ∙ if_false (some token) _ other)
  Persisted-IsBacked rec token (d', some e) untracked (r, t) =
      same_records-IsBacked d' r λ slug old l. elim (Bool-cases (str_eq rec.slug slug)) [
        | inl same ↦
            let at = (str_eq_iff rec.slug slug).0 same in
            let gone = subst (λ s. lookup s (records_of codec d) ≡ none) at untracked in
            let no = sym gone ∙ l in cc
        | inr other ↦ t slug other
      ]

  module _ (back : ReadsBack codec) where
    upsert-IsBacked :
        (c : Calls) (rec : Record) (now : Disk) (r : Disk × Option StoreError)
        → records_of codec now ≡ records_of codec d
        → tokens_of codec now ≡ tokens_of codec d
        → (rec.has_token ≡ true → Token codec d rec.slug)
        → Applies codec (λ records. insert rec.slug rec records) now r
        → IsBacked codec r.0
    upsert-IsBacked c rec now (d', some e) s t own (r, k) =
        same_records-IsBacked d' (r ∙ s) λ slug old l. ap (lookup slug) (k ∙ t)
    upsert-IsBacked c rec now (d', none) s t own (r, k) =
        put_record-IsBacked rec d'
          (λ slug.
            r slug
            ∙ ap (λ x. lookup slug (insert rec.slug rec x)) s
            ∙ lookup-insert rec.slug slug rec (records_of codec d))
          (λ h. let (token, e) = own h in (token, ap (lookup rec.slug) (k ∙ t) ∙ e))
          (λ slug other. ap (lookup slug) (k ∙ t))

    -- The record that an update starts from has its token, if it has HasToken.
    base_record-Token :
        (now : ℕ) (slug token : Str) (o : Option Record)
        → lookup slug (records_of codec d) ≡ o
        → (is_empty token ≡ false → Token codec d slug)
        → (base_record now slug token o).has_token ≡ true
        → Token codec d (base_record now slug token o).slug
    unfolding base_record
    base_record-Token now slug token none l own h = own (ground arith)
    base_record-Token now slug token (some rec) l own h =
        let (k, b) = backed slug rec l in subst (Token codec d) (sym k) (b h)

    update_ledger-IsBacked :
        (c : Calls) (now : ℕ) (cwd : Option Str) (src : Input) (token : Str) (bundle : Bundle)
        (commit : CommitResponse) (r : Disk × Answer (Dict Record))
        → IsTextInput cwd src commit
        → (is_empty token ≡ false → Token codec d commit.slug)
        → Reads codec d r
        → IsBacked codec (update_ledger codec c now cwd src token bundle commit (as_ledger r)).0
    unfolding update_ledger as_ledger updated_record get new_ledger
    update_ledger-IsBacked c now cwd src token bundle commit (d', broke e) fit own h =
        subst (IsBacked codec) (sym h) backed
    update_ledger-IsBacked c now cwd src token bundle commit (d', got records) fit own (l, (s, t)) =
        let old = lookup commit.slug records in
        let rec =
          updated_record now cwd src bundle commit (base_record now commit.slug token old) in
        upsert-IsBacked c rec d' (upsert codec c rec d') (ap (decoded codec.decode_state) s)
          (ap (decoded codec.decode_credentials) t)
          (base_record-Token now commit.slug token old (ap (lookup commit.slug) (sym l)) own)
          (upsert-Applies codec back c rec d' (
            updated-IsTextRecord now cwd src token bundle commit old fit (
              lookup-AllText IsTextRecord commit.slug records
                (subst (AllText IsTextRecord) (sym l) (records_of-AllText codec back d)))))

    prune-IsBacked :
        (at_token : Calls) (slug : Str) (r : Disk × Option StoreError)
        → r.1 ≡ none
        → Applies codec (λ records. erase slug records) d r
        → IsBacked codec (delete_token codec at_token slug r.0).0
    prune-IsBacked at_token slug (d', some e) gone a key rec l = cc
    prune-IsBacked at_token slug (d', none) gone (r, k) key rec l =
        let (same, others) =
          after_delete codec back slug d' (delete_token codec at_token slug d')
            (delete_token-Applies codec back at_token slug d') in
        let erased =
          sym (lookup-erase slug key (records_of codec d))
          ∙ sym (ap (lookup key) same ∙ r key)
          ∙ l in
        elim (Bool-cases (str_eq slug key)) [
          | inl t ↦ let no = sym (if_true none (lookup key (records_of codec d)) t) ∙ erased in cc
          | inr f ↦
              let (at, b) =
                backed key rec (sym (if_false none (lookup key (records_of codec d)) f) ∙ erased) in
              (at, λ h. let (token, e) = b h in (token, others key f ∙ ap (lookup key) k ∙ e))
        ]

-- A publish of a slug that is not tracked, an update with a token that is empty or stored, and a removal
-- whose record goes keep the tokens of the records that say that they have one, and the records under
-- their slugs, whichever of their calls fail; if what is stored is text, and JSON reads back the maps of
-- text that it wrote.
pub Change-IsBacked :
    (codec : Codec)
    → ReadsBack codec
    → (d d' : Disk) → IsBacked codec d
    → Change codec d d'
    → IsBacked codec d'
unfolding persist_update load published_record prune_local
Change-IsBacked codec back d _ b
      (published at_token at_record at_rollback now cwd src bundle commit token fit is_text
        untracked d' e) =
    subst (IsBacked codec) (sym e) (
      Persisted-IsBacked codec d b (published_record now cwd src bundle commit) token
        (persist_publish codec at_token at_record at_rollback now cwd src bundle commit token d)
        untracked
        (persist_publish-Persisted codec back at_token at_record at_rollback now cwd src bundle
          commit token d fit is_text))
Change-IsBacked codec back d _ b
      (updated at_load at_record now cwd src token bundle commit fit own d' e) =
    subst (IsBacked codec) (sym e) (
      update_ledger-IsBacked codec d b back at_record now cwd src token bundle commit
        (read_state codec at_load d) fit own (read_state-Reads codec at_load d))
Change-IsBacked codec back d _ b (pruned at_record at_token slug gone d' e) =
    subst (IsBacked codec) (sym e) (
      prune-IsBacked codec d b back at_token slug (prune codec at_record slug d) gone
        (prune-Applies codec back at_record slug d))
