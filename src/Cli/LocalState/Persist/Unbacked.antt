-- ===== src/Cli/LocalState/Persist/Unbacked.antt =====
-- `pruneLocal` where the record of a slug cannot be pruned.
use mdfly.Common.{if_true, Str, str_eq_refl, ◌≡◌, ap, ◌∙◌, true, Option, none, some}
use mdfly.Common.Dict.{erase, lookup, lookup-erase}
use mdfly.Cli.LocalState.{Record, Codec, Disk, Calls, StoreError, prune, delete_token}
use mdfly.Cli.LocalState.Laws.{ReadsBack, records_of, tokens_of, Applies, AppliesToTokens}
use mdfly.Cli.LocalState.Persist.{prune_local}
use mdfly.Cli.LocalState.Persist.Laws.{prune-Applies, delete_token-Applies}

-- A removal whose record cannot be pruned and whose token is deleted leaves a record that says that its
-- token is stored, and no token; if JSON reads back the maps
-- of text that it wrote.
pub prune_local_unbacks :
    (codec : Codec)
    → ReadsBack codec
    → (at_record at_token : Calls) (slug : Str) (d : Disk) (rec : Record) (e : StoreError)
    → lookup slug (records_of codec d) ≡ some rec
    → rec.has_token ≡ true
    → (prune codec at_record slug d).1 ≡ some e
    → (delete_token codec at_token slug (prune codec at_record slug d).0).1 ≡ none
    → (lookup slug (records_of codec (prune_local codec at_record at_token slug d)) ≡ some rec)
      × (lookup slug (tokens_of codec (prune_local codec at_record at_token slug d)) ≡ none)
unfolding prune_local
prune_local_unbacks codec back at_record at_token slug d rec e l h p q =
    kept (prune codec at_record slug d)
      (delete_token codec at_token slug (prune codec at_record slug d).0) p q
      (prune-Applies codec back at_record slug d)
      (delete_token-Applies codec back at_token slug (prune codec at_record slug d).0)
  where
    kept :
        (r s : Disk × Option StoreError)
        → r.1 ≡ some e
        → s.1 ≡ none
        → Applies codec (λ records. erase slug records) d r
        → AppliesToTokens codec (λ tokens. erase slug tokens) r.0 s
        → (lookup slug (records_of codec s.0) ≡ some rec)
          × (lookup slug (tokens_of codec s.0) ≡ none)
    kept (d1, none) s a b x y = cc
    kept (d1, some f) (d2, some g) a b x y = cc
    kept (d1, some f) (d2, none) a b (r, k) (t, m) = (
      ap (lookup slug) (m ∙ r) ∙ l,
      t slug ∙ lookup-erase slug slug (tokens_of codec d1) ∙ if_true none _ (str_eq_refl slug),
    )
