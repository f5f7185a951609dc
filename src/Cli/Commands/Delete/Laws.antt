-- ===== src/Cli/Commands/Delete/Laws.antt =====
-- A deletion touches the local state of its target only, and only where the server has no such document
-- any more.
use mdfly.Common.{
  Bool-cases, if_true, if_false, Str, codes, str_eq, str_eq_iff, to_lower, trim, is_space, ◌≡◌,
  refl, sym, ap, ◌∙◌, subst, ◌⊎◌, inl, inr, Bool, true, false, Option, none, some, arith,
}
use mdfly.Common.Dict.{Dict, erase, lookup, lookup-erase}
use mdfly.Cli.Exit.{
  CliError, ApiError, api_error, file_error, usage_error, content_error, bundle_limit_error,
  transient_error, other_error,
}
use mdfly.Cli.LocalState.{
  Codec, Disk, Calls, StoreError, Answer, got, broke, read_state, load_token, prune, delete_token,
  Record,
}
use mdfly.Cli.LocalState.Ledger.{load, as_ledger, new_ledger}
use mdfly.Cli.LocalState.Laws.{
  ReadsBack, Reads, records_of, tokens_of, decoded, Applies, read_state-Reads,
  read_credentials-cases,
}
use mdfly.Cli.LocalState.Persist.{prune_local}
use mdfly.Cli.LocalState.Persist.Laws.{prune-Applies, delete_token-Applies, after_delete}
use mdfly.Cli.Walk.{FileSystem}
use mdfly.Cli.Commands.Targets.{
  Target, target, misused, abs_failed, resolve_delete_target, file_exists, Stdin, no_terminal,
  typed,
}
use mdfly.Cli.Commands.Delete.{
  Arguments, Run, Ended, failed_with, aborted, pruned_slug, pruned_all, text_or_empty,
  is_already_gone, confirm, delete_answered, delete_confirmed, delete_target, delete_loaded,
  run_delete, read_yes,
}
use mdfly.Cli.Commands.Targets.Laws.{
  IsOnly, IsUntracked, IsFlag, IsSlug, resolve_delete_target-IsNamed,
}

-- The records and the tokens of all other slugs are as they were.
abbrev pub OthersStay : Codec → Disk → Disk → Str → Type 0
OthersStay codec d d' slug =
    (other : Str)
    → str_eq slug other ≡ false
    → (lookup other (records_of codec d') ≡ lookup other (records_of codec d))
      × (lookup other (tokens_of codec d') ≡ lookup other (tokens_of codec d))

abbrev pub Stays : Codec → Disk → Disk → Type 0
Stays codec d d' =
    (records_of codec d' ≡ records_of codec d) × (tokens_of codec d' ≡ tokens_of codec d)

module _ (codec : Codec) (back : ReadsBack codec) where
  pub prune_local-OthersStay :
      (at_prune at_forget : Calls) (slug : Str) (d : Disk)
      → OthersStay codec d (prune_local codec at_prune at_forget slug d) slug
  unfolding prune_local
  prune_local-OthersStay at_prune at_forget slug d =
      behind (prune codec at_prune slug d) (prune-Applies codec back at_prune slug d)
    where
      behind :
          (r : Disk × Option StoreError)
          → Applies codec (λ records. erase slug records) d r
          → OthersStay codec d (delete_token codec at_forget slug r.0).0 slug
      behind (d', none) (r, t) other n =
          let (same, others) =
            after_delete codec back slug d' (delete_token codec at_forget slug d')
              (delete_token-Applies codec back at_forget slug d') in
          (
            ap (lookup other) same
                ∙ r other
                ∙ lookup-erase slug other (records_of codec d)
                ∙ if_false none _ n,
            others other n ∙ ap (lookup other) t,
          )
      behind (d', some e) (r, t) other n =
          let (same, others) =
            after_delete codec back slug d' (delete_token codec at_forget slug d')
              (delete_token-Applies codec back at_forget slug d') in
          (ap (lookup other) (same ∙ r), others other n ∙ ap (lookup other) t)

module _ (codec : Codec) (back : ReadsBack codec) (fs : FileSystem)
    (server : Str → Str → Option CliError) (at_load at_token at_prune at_forget : Calls)
    (a : Arguments) where
  -- The server has deleted the document of the slug, or answers 404 or 410.
  abbrev pub IsGone : Str → Str → Type 0
  IsGone slug token =
      (server slug token ≡ none)
      ⊎ ((e : ApiError) × ((server slug token ≡ some (api_error e))
            × ((e.status ≡ 404) ⊎ (e.status ≡ 410))))

  -- -y was given, or "y" or "yes" was typed at a terminal.
  abbrev pub IsConfirmed : Type 0
  IsConfirmed =
      (a.yes_flag ≡ true)
      ⊎ ((line : Str) × ((a.stdin ≡ typed line)
            × ((to_lower (trim is_space line) ≡ codes "y")
                ⊎ (to_lower (trim is_space line) ≡ codes "yes"))))

  -- The flag's slug, or a tracked slug that is the argument, or the only one of the argument's file, or
  -- the argument, which is no file and has nothing tracked.
  abbrev pub IsMeant : Disk → Str → Type 0
  IsMeant d slug =
      IsFlag (records_of codec d) a.cwd a.arg a.slug_flag slug
      ⊎ (IsSlug (records_of codec d) a.cwd a.arg a.slug_flag slug
          ⊎ (IsOnly (records_of codec d) a.cwd a.arg slug
              ⊎ (((file_exists fs a.arg ≡ false) × (slug ≡ a.arg))
                  × IsUntracked (records_of codec d) a.cwd a.arg)))

  confirm-IsConfirmed : confirm a.yes_flag a.stdin ≡ some true → IsConfirmed
  unfolding confirm read_yes
  confirm-IsConfirmed h = by_flag a.yes_flag a.stdin refl refl h
    where
      by_flag :
          (yes_flag : Bool) (stdin : Stdin)
          → a.yes_flag ≡ yes_flag
          → a.stdin ≡ stdin
          → confirm yes_flag stdin ≡ some true
          → IsConfirmed
      by_flag true stdin e k c = inl e
      by_flag false no_terminal e k c = cc
      by_flag false (typed line) e k c =
          let line_answer = to_lower (trim is_space line) in
          elim (Bool-cases (str_eq line_answer (codes "y"))) [
            | inl t ↦ inr (line, (k, inl ((str_eq_iff line_answer (codes "y")).0 t)))
            | inr f ↦ elim (Bool-cases (str_eq line_answer (codes "yes"))) [
              | inl t ↦ inr (line, (k, inr ((str_eq_iff line_answer (codes "yes")).0 t)))
              | inr g ↦ let wrong = rw (confirm, read_yes, f, g) at c in cc
            ]
          ]

  is_already_gone-IsGone :
      (slug token : Str) (e : CliError)
      → server slug token ≡ some e
      → is_already_gone e ≡ true
      → IsGone slug token
  unfolding is_already_gone
  is_already_gone-IsGone slug token (api_error e) k h = inr (e, (k, ground arith))
  is_already_gone-IsGone slug token usage_error k h = cc
  is_already_gone-IsGone slug token content_error k h = cc
  is_already_gone-IsGone slug token bundle_limit_error k h = cc
  is_already_gone-IsGone slug token transient_error k h = cc
  is_already_gone-IsGone slug token file_error k h = cc
  is_already_gone-IsGone slug token other_error k h = cc

  -- What a deletion has done where it pruned a slug: the arguments mean it, the deletion was
  -- confirmed, the server was sent the slug with its stored token, and has no such document any more.
  abbrev pub IsPruned : Disk → Disk → Option (Str × Str) → Str → Type 0
  IsPruned d d' sent slug =
      IsMeant d slug
      × (IsConfirmed
          × ((sent ≡ some (slug, text_or_empty (lookup slug (tokens_of codec d))))
              × (IsGone slug (text_or_empty (lookup slug (tokens_of codec d)))
                  × OthersStay codec d d' slug)))

  abbrev pub IsDeletion : Disk → Disk → Option (Str × Str) → Ended → Type 0
  IsDeletion d d' sent (pruned_slug slug) = IsPruned d d' sent slug
  IsDeletion d d' sent (failed_with e) = Stays codec d d'
  IsDeletion d d' sent aborted = Stays codec d d'
  IsDeletion d d' sent (pruned_all n) = ⊥

  abbrev pub IsDeletionOf : Disk → Run → Type 0
  IsDeletionOf d r = IsDeletion d r.disk r.sent r.ended

  module _ (d : Disk) (slug : Str)
      (named : resolve_delete_target fs a.cwd (new_ledger (records_of codec d)) a.arg a.slug_flag
        ≡ target slug)
      (now : Disk) (stays : Stays codec d now) where
    OthersStay-from : (d' : Disk) → OthersStay codec now d' slug → OthersStay codec d d' slug
    OthersStay-from d' o other n =
        let (r, t) = o other n in (r ∙ ap (lookup other) stays.0, t ∙ ap (lookup other) stays.1)

    abbrev stored : Str
    stored = text_or_empty (lookup slug (tokens_of codec d))

    pruned-IsDeletion :
        confirm a.yes_flag a.stdin ≡ some true
        → IsGone slug stored
        → IsDeletionOf d (record {
          disk = prune_local codec at_prune at_forget slug now;
          sent = some (slug, stored);
          ended = pruned_slug slug;
        })
    pruned-IsDeletion c g = (
      resolve_delete_target-IsNamed (records_of codec d) a.cwd a.arg a.slug_flag fs slug named,
      (
        confirm-IsConfirmed c,
        (
          refl,
          (
            g,
            OthersStay-from (prune_local codec at_prune at_forget slug now)
                (prune_local-OthersStay codec back at_prune at_forget slug now),
          ),
        ),
      ),
    )

    delete_answered-IsDeletion :
        (o : Option CliError)
        → confirm a.yes_flag a.stdin ≡ some true
        → server slug stored ≡ o
        → IsDeletionOf d (
            delete_answered codec fs server at_load at_token at_prune at_forget a now slug stored o)
    unfolding delete_answered
    delete_answered-IsDeletion none c e = pruned-IsDeletion c (inl e)
    delete_answered-IsDeletion (some x) c e = elim (Bool-cases (is_already_gone x)) [
      | inl t ↦
          subst (IsDeletionOf d) (sym (if_true _ _ t))
            (pruned-IsDeletion c (is_already_gone-IsGone slug stored x e t))
      | inr f ↦ subst (IsDeletionOf d) (sym (if_false _ _ f)) stays
    ]

    delete_confirmed-IsDeletion :
        (o : Option Bool) (token : Answer (Option Str))
        → confirm a.yes_flag a.stdin ≡ o
        → (token ≡ got (lookup slug (tokens_of codec d))) ⊎ ((e : StoreError) × (token ≡ broke e))
        → IsDeletionOf d (
            delete_confirmed codec fs server at_load at_token at_prune at_forget a now slug o token)
    unfolding delete_confirmed
    delete_confirmed-IsDeletion none token c t = stays
    delete_confirmed-IsDeletion (some false) token c t = stays
    delete_confirmed-IsDeletion (some true) token c (inl t) =
        subst
          (λ x. IsDeletionOf d (
            delete_confirmed codec fs server at_load at_token at_prune at_forget a now slug
              (some true) x))
          (sym t) (delete_answered-IsDeletion (server slug stored) c refl)
    delete_confirmed-IsDeletion (some true) token c (inr (e, t)) =
        subst
          (λ x. IsDeletionOf d (
            delete_confirmed codec fs server at_load at_token at_prune at_forget a now slug
              (some true) x))
          (sym t) stays

    load_token-cases :
        (load_token codec at_token slug now ≡ got (lookup slug (tokens_of codec d)))
        ⊎ ((e : StoreError) × (load_token codec at_token slug now ≡ broke e))
    unfolding load_token
    load_token-cases = elim (read_credentials-cases codec back at_token now) [
      | inl r ↦ inl (rw (r, load_token) (ap (λ t. got (lookup slug t)) stays.1))
      | inr (e, r) ↦ inr (e, rw (r, load_token) refl)
    ]

  delete_loaded-IsDeletion :
      (d : Disk) (r : Disk × Answer (Dict Record))
      → Reads codec d r
      → IsDeletionOf d
          (delete_loaded codec fs server at_load at_token at_prune at_forget a (as_ledger r))
  unfolding delete_loaded as_ledger delete_target
  delete_loaded-IsDeletion d (d', broke e) same =
      (ap (records_of codec) same, ap (tokens_of codec) same)
  delete_loaded-IsDeletion d (d', got records) (l, (s, t)) =
      by_target (resolve_delete_target fs a.cwd (new_ledger records) a.arg a.slug_flag)
        (ap (λ x. resolve_delete_target fs a.cwd (new_ledger x) a.arg a.slug_flag) (sym l))
    where
      same : Stays codec d d'
      same = (ap (decoded codec.decode_state) s, ap (decoded codec.decode_credentials) t)

      by_target :
          (o : Target)
          → resolve_delete_target fs a.cwd (new_ledger (records_of codec d)) a.arg a.slug_flag ≡ o
          → IsDeletionOf d
              (delete_target codec fs server at_load at_token at_prune at_forget a d' o)
      by_target (misused u) e = same
      by_target abs_failed e = same
      by_target (target slug) e =
          delete_confirmed-IsDeletion d slug e d' same (confirm a.yes_flag a.stdin)
            (load_token codec at_token slug d') refl (load_token-cases d slug e d' same)

  -- A deletion that ends by pruning a slug had arguments that mean it (--slug, a tracked slug, the only
  -- slug of a file, or an untracked argument that is no file), was confirmed by -y or by "y" or "yes" at
  -- a terminal, and sent the server the slug with its stored token; the server has deleted the document,
  -- or answers 404 or 410; and the records and tokens of all other slugs are as they were. One that ends
  -- otherwise leaves all records and tokens as they were; if JSON reads back the maps of text that it
  -- wrote.
  pub run_delete-IsDeletion :
      (d : Disk)
      → IsDeletionOf d (run_delete codec fs server at_load at_token at_prune at_forget a d)
  unfolding run_delete load
  run_delete-IsDeletion d =
      delete_loaded-IsDeletion d (read_state codec at_load d) (read_state-Reads codec at_load d)
