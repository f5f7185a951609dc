-- ===== src/Cli/Commands/Targets/Laws.antt =====
-- A command is about no other document than the one that its arguments name.
use mdfly.Common.{
  if◌then◌else◌, Bool-cases, Option-cases, if_true, if_false, length, Str, str_eq, is_empty, trim,
  is_space, ℤ, pos, negsuc, ℕ, zero, suc, ◌+◌, ◌≡◌, refl, sym, ap, ◌∙◌, subst, ◌⊎◌, inl, inr, true,
  false, Option, none, some, List, [], ◌∷◌, ◌++◌, arith,
}
use mdfly.Common.Dict.{Dict, lookup}
use mdfly.Common.Members.{among, among-here}
use mdfly.Cli.LocalState.{Record}
use mdfly.Cli.LocalState.Ledger.{get, slugs_for_path, new_ledger}
use mdfly.Cli.LocalState.Ledger.Paths.{tracked_at, slugs_for_path-tracked}
use mdfly.Cli.LocalState.Persist.{abs_path}
use mdfly.Cli.Walk.{FileSystem}
use mdfly.Cli.Commands.Targets.{
  Target, target, misused, only, too_many, by_path, resolve_local_slug, file_exists,
  resolve_delete_target, chosen, selected, Stdin, no_terminal, typed, pick_slug,
  resolve_update_target, not_tracked, tracked_first,
}
use mdfly.Common.Decimal.{atoi}

target_inj : (a b : Str) → target a ≡ target b → a ≡ b
target_inj a b h = cc

one_of : (one slug k : Str) → one ≡ slug → among (one ∷ []) k ≡ str_eq k slug
one_of one slug k e = subst (λ z. among (one ∷ []) k ≡ str_eq k z) e (ground arith)

-- A terminal got the number of an entry of a list, counted from 1.
abbrev pub IsTyped : Stdin → List Str → Str → Type 0
IsTyped stdin slugs slug =
    (line : Str) × ((stdin ≡ typed line)
      × ((before : List Str) × ((after : List Str) × ((slugs ≡ before ++ (slug ∷ after))
              × (atoi (trim is_space line) ≡ some (pos (length before + 1)))))))

module _ (records : Dict Record) (cwd : Option Str) (arg : Str) where
  -- No record but one under this slug is of the argument's file.
  abbrev pub IsOnly : Str → Type 0
  IsOnly slug =
      (path : Str) × ((abs_path cwd arg ≡ some path)
        × ((k : Str) → tracked_at records path k ≡ str_eq k slug))

  -- The argument's file has this slug, among those of its list, and its number there was typed.
  abbrev pub IsAmong : Stdin → Str → Type 0
  IsAmong stdin slug =
      (path : Str) × ((abs_path cwd arg ≡ some path)
        × ((tracked_at records path slug ≡ true)
            × IsTyped stdin (slugs_for_path (new_ledger records) path) slug))

  -- Nothing is tracked for the argument's file.
  abbrev pub IsUntracked : Type 0
  IsUntracked =
      (path : Str) × ((abs_path cwd arg ≡ some path)
        × ((k : Str) → tracked_at records path k ≡ false))

  only-cases :
      (path slug : Str) (slugs : List Str) (on_none on_many : Target)
      → slugs_for_path (new_ledger records) path ≡ slugs
      → abs_path cwd arg ≡ some path
      → only on_none on_many slugs ≡ target slug
      → IsOnly slug ⊎ (((on_none ≡ target slug) × IsUntracked) ⊎ (on_many ≡ target slug))
  unfolding only
  only-cases path slug [] on_none on_many s a h = inr (
      inl
        (h, (path, (a, λ k. sym (slugs_for_path-tracked records path k) ∙ ap (λ l. among l k) s))))
  only-cases path slug (one ∷ []) on_none on_many s a h = inl (
    path,
    (
      a,
      λ k.
          sym (slugs_for_path-tracked records path k)
          ∙ ap (λ l. among l k) s
          ∙ one_of one slug k (target_inj one slug h),
    ),
  )
  only-cases path slug (one ∷ two ∷ slugs) on_none on_many s a h = inr (inr h)

  by_path-cases :
      (slug : Str) (on_many : List Str → Target) (on_none : Target)
      → by_path cwd (new_ledger records) arg on_many on_none ≡ target slug
      → IsOnly slug
        ⊎ (((on_none ≡ target slug) × IsUntracked)
            ⊎ ((path : Str) × ((abs_path cwd arg ≡ some path)
                  × (on_many (slugs_for_path (new_ledger records) path) ≡ target slug))))
  unfolding by_path
  by_path-cases slug on_many on_none h = elim (Option-cases (abs_path cwd arg)) [
    | inl n ↦ let no = rw (n, by_path) at h in cc
    | inr (path, a) ↦
        let slugs = slugs_for_path (new_ledger records) path in
        elim (only-cases path slug slugs on_none (on_many slugs) refl a (rw (a, by_path) at h)) [
          | inl one ↦ inl one
          | inr (inl none_there) ↦ inr (inl none_there)
          | inr (inr many) ↦ inr (inr (path, (a, many)))
        ]
  ]

chosen-among :
    (slugs : List Str) (n : ℕ) (slug : Str) → chosen slugs n ≡ target slug → among slugs slug ≡ true
unfolding chosen
chosen-among [] n slug h = cc
chosen-among (s ∷ slugs) zero slug h = cc
chosen-among (s ∷ slugs) (suc zero) slug h =
    subst (λ z. among (s ∷ slugs) z ≡ true) (target_inj s slug h) (among-here s slugs)
chosen-among (s ∷ slugs) (suc (suc n)) slug h = ground (arith, chosen-among slugs (suc n) slug)

chosen-split :
    (slugs : List Str) (n : ℕ) (slug : Str)
    → chosen slugs n ≡ target slug
    → (before : List Str) × ((after : List Str) × ((slugs ≡ before ++ (slug ∷ after))
          × (n ≡ length before + 1)))
unfolding chosen
chosen-split [] n slug h = cc
chosen-split (s ∷ slugs) zero slug h = cc
chosen-split (s ∷ slugs) (suc zero) slug h =
    ([], (slugs, (ap (λ x. x ∷ slugs) (target_inj s slug h), refl)))
chosen-split (s ∷ slugs) (suc (suc n)) slug h =
    let (before, (after, (e, l))) = chosen-split slugs (suc n) slug h in
    (s ∷ before, (after, (ap (λ x. s ∷ x) e, omega arith)))

selected-split :
    (slugs : List Str) (o : Option ℤ) (slug : Str)
    → selected slugs o ≡ target slug
    → (before : List Str) × ((after : List Str) × ((slugs ≡ before ++ (slug ∷ after))
          × (o ≡ some (pos (length before + 1)))))
unfolding selected
selected-split slugs none slug h = cc
selected-split slugs (some (pos n)) slug h =
    let (before, (after, (e, l))) = chosen-split slugs n slug h in
    (before, (after, (e, ap (λ x. some (pos x)) l)))
selected-split slugs (some (negsuc n)) slug h = cc

pick_slug-IsTyped :
    (stdin : Stdin) (slugs : List Str) (slug : Str)
    → pick_slug stdin slugs ≡ target slug
    → IsTyped stdin slugs slug
unfolding pick_slug too_many
pick_slug-IsTyped no_terminal slugs slug h = cc
pick_slug-IsTyped (typed line) slugs slug h =
    (line, (refl, selected-split slugs (atoi (trim is_space line)) slug h))

selected-among :
    (slugs : List Str) (o : Option ℤ) (slug : Str)
    → selected slugs o ≡ target slug
    → among slugs slug ≡ true
unfolding selected
selected-among slugs none slug h = cc
selected-among slugs (some (pos n)) slug h = chosen-among slugs n slug h
selected-among slugs (some (negsuc n)) slug h = cc

pick_slug-among :
    (stdin : Stdin) (slugs : List Str) (slug : Str)
    → pick_slug stdin slugs ≡ target slug
    → among slugs slug ≡ true
unfolding pick_slug too_many
pick_slug-among no_terminal slugs slug h = cc
pick_slug-among (typed line) slugs slug h = selected-among slugs (atoi (trim is_space line)) slug h

module _ (records : Dict Record) (cwd : Option Str) (arg slug_flag : Str) where
  abbrev pub IsFlag : Str → Type 0
  IsFlag slug = (is_empty slug_flag ≡ false) × (slug ≡ slug_flag)

  -- The argument is a slug that is tracked.
  abbrev pub IsSlug : Str → Type 0
  IsSlug slug = (slug ≡ arg) × ((rec : Record) × (lookup arg records ≡ some rec))

  tracked_first-cases :
      (by_file : Target) (slug : Str)
      → tracked_first (new_ledger records) arg slug_flag by_file ≡ target slug
      → IsFlag slug ⊎ (IsSlug slug ⊎ (by_file ≡ target slug))
  unfolding tracked_first get new_ledger
  tracked_first-cases by_file slug h = elim (Bool-cases (is_empty slug_flag)) [
    | inr f ↦ inl (f, sym (target_inj slug_flag slug (rw (f, tracked_first) at h)))
    | inl t ↦ elim (Bool-cases (is_empty arg)) [
      | inl e ↦ let wrong = rw (t, e, tracked_first) at h in cc
      | inr e ↦ elim (Option-cases (lookup arg records)) [
        | inr (rec, l) ↦
            inr (inl (sym (target_inj arg slug (rw (t, e, l, tracked_first) at h)), (rec, l)))
        | inl n ↦ inr (inr (rw (t, e, n, tracked_first) at h))
      ]
    ]
  ]

  too_many-not : (slugs : List Str) (slug : Str) → too_many slugs ≡ target slug → ⊥
  unfolding too_many
  too_many-not slugs slug h = cc

  recovery-cases :
      (fs : FileSystem) (slug : Str)
      → (if file_exists fs arg then misused not_tracked else target arg) ≡ target slug
      → (file_exists fs arg ≡ false) × (slug ≡ arg)
  recovery-cases fs slug h = elim (Bool-cases (file_exists fs arg)) [
    | inl t ↦ let wrong = sym (if_true (misused not_tracked) (target arg) t) ∙ h in cc
    | inr f ↦
        (f, sym (target_inj arg slug (sym (if_false (misused not_tracked) (target arg) f) ∙ h)))
  ]

  -- A slug that is resolved for a removal is the flag's, or the tracked one that is the argument, or
  -- the only one of the argument's file.
  pub resolve_local_slug-IsNamed :
      (slug : Str)
      → resolve_local_slug cwd (new_ledger records) arg slug_flag ≡ target slug
      → IsFlag slug ⊎ (IsSlug slug ⊎ IsOnly records cwd arg slug)
  unfolding resolve_local_slug
  resolve_local_slug-IsNamed slug h =
      elim (tracked_first-cases
        (by_path cwd (new_ledger records) arg too_many (misused not_tracked)) slug h) [
          | inl flagged ↦ inl flagged
          | inr (inl tracked) ↦ inr (inl tracked)
          | inr (inr file) ↦
              elim (by_path-cases records cwd arg slug too_many (misused not_tracked) file) [
                | inl one ↦ inr (inr one)
                | inr (inl (wrong, u)) ↦ cc
                | inr (inr (path, (a, many))) ↦
                    absurd (too_many-not (slugs_for_path (new_ledger records) path) slug many)
              ]
        ]

  -- A slug that is resolved for a deletion is the flag's, or the tracked one that is the argument, or
  -- the only one of the argument's file, or else the argument, which is no file, with nothing tracked.
  pub resolve_delete_target-IsNamed :
      (fs : FileSystem) (slug : Str)
      → resolve_delete_target fs cwd (new_ledger records) arg slug_flag ≡ target slug
      → IsFlag slug
        ⊎ (IsSlug slug
            ⊎ (IsOnly records cwd arg slug
                ⊎ (((file_exists fs arg ≡ false) × (slug ≡ arg)) × IsUntracked records cwd arg)))
  unfolding resolve_delete_target
  resolve_delete_target-IsNamed fs slug h =
      let recovery = if file_exists fs arg then misused not_tracked else target arg in
      elim (tracked_first-cases (by_path cwd (new_ledger records) arg too_many recovery) slug h) [
        | inl flagged ↦ inl flagged
        | inr (inl tracked) ↦ inr (inl tracked)
        | inr (inr file) ↦ elim (by_path-cases records cwd arg slug too_many recovery file) [
          | inl one ↦ inr (inr (inl one))
          | inr (inl (r, u)) ↦ inr (inr (inr (recovery-cases fs slug r, u)))
          | inr (inr (path, (a, many))) ↦
              absurd (too_many-not (slugs_for_path (new_ledger records) path) slug many)
        ]
      ]

  -- A slug that is resolved for an update is the flag's, or the only one of the argument's file, or one
  -- of several, whose number in their list was typed at a terminal.
  pub resolve_update_target-IsNamed :
      (stdin : Stdin) (slug : Str)
      → resolve_update_target stdin cwd (new_ledger records) arg slug_flag ≡ target slug
      → IsFlag slug ⊎ (IsOnly records cwd arg slug ⊎ IsAmong records cwd arg stdin slug)
  unfolding resolve_update_target
  resolve_update_target-IsNamed stdin slug h = elim (Bool-cases (is_empty slug_flag)) [
    | inr f ↦ inl (f, sym (target_inj slug_flag slug (rw (f, resolve_update_target) at h)))
    | inl t ↦ elim (Bool-cases (is_empty arg)) [
      | inl e ↦ let wrong = rw (t, e, resolve_update_target) at h in cc
      | inr e ↦
          elim (by_path-cases records cwd arg slug (pick_slug stdin) (misused not_tracked)
            (rw (t, e, resolve_update_target) at h)) [
              | inl one ↦ inr (inl one)
              | inr (inl (wrong, u)) ↦ cc
              | inr (inr (path, (a, p))) ↦
                  let here =
                    pick_slug-among stdin (slugs_for_path (new_ledger records) path) slug p in
                  inr (
                    inr (
                      path,
                      (
                        a,
                        (
                          sym (slugs_for_path-tracked records path slug) ∙ here,
                          pick_slug-IsTyped stdin (slugs_for_path (new_ledger records) path) slug p,
                        ),
                      ),
                    ))
            ]
    ]
  ]
