-- ===== src/Documents/Steps/Reachable.antt =====
-- What holds along every run of steps, from any number of clients and jobs.
use mdfly.Common.{Option-cases, find, Str, ◌≡◌, inl, inr, Bool, true, false, some, [], arith}
use mdfly.Documents.Table.{gone, Status, deleted, expired, Document, has_slug}
use mdfly.Documents.Steps.{Reach, here, next}
use mdfly.Documents.Steps.Tables.{Step-IsTable}
use mdfly.Documents.Steps.Rows.{Step-KeepsRows}
use mdfly.Documents.Rows.{leads, KeepsRows, KeepsRows-refl, KeepsRows-trans}
use mdfly.Platform.{Platform}
use mdfly.Documents.Ops.{get_by_slug}
use mdfly.Documents.Table.{Database, failed}
use mdfly.Documents.Invariant.{IsTable}

unfoldable pub empty : Database
empty = record { documents = []; purge_queue = []; next_id = 1 }

pub empty-IsTable : IsTable empty
unfolding empty
empty-IsTable = record { unique_ids = tt; ids_below = tt; unique_slugs = tt; unique_keys = tt }

abbrev pub is_gone : Status → Bool
is_gone deleted = true
is_gone expired = true
is_gone _ = false

gone_row :
    (s : Str) (d : Database)
    → get_by_slug s d ≡ failed gone
    → (r : Document) × (find (has_slug s) d.documents ≡ some r) × (is_gone r.status ≡ true)
unfolding get_by_slug
gone_row s d g = elim (Option-cases (find (has_slug s) d.documents)) [
  | inl e ↦ cc e
  | inr (r, e) ↦ (r, e, ground arith)
]

row_gone :
    (s : Str) (d : Database) (r : Document)
    → find (has_slug s) d.documents ≡ some r
    → is_gone r.status ≡ true
    → get_by_slug s d ≡ failed gone
unfolding get_by_slug
row_gone s d r e h = ground arith

is_gone-leads : (s t : Status) → is_gone s ≡ true → leads s t ≡ true → is_gone t ≡ true
is_gone-leads s t h l = ground arith

module _ (pf : Platform) where
  -- Along every run from a table that meets its constraints, whatever the clients and jobs do and
  -- whichever calls fail, the table goes on meeting them: no two rows share an id, a slug or an
  -- idempotency key, and the ids lie below the sequence.
  pub Reach-IsTable : {d d' : Database} → IsTable d → Reach pf d d' → IsTable d'
  Reach-IsTable t here = t
  Reach-IsTable t (next r st) = Step-IsTable pf (Reach-IsTable t r) st

  -- Along every run from a table that meets its constraints, a slug that has a row keeps that very row: its id, its idempotency key, its Edit Token hash and its
  -- creation time stay, so the slug is never minted again, and its status only goes on to one that the
  -- present one leads to.
  pub Reach-KeepsRows :
      {d d' : Database} → IsTable d → Reach pf d d' → KeepsRows d.documents d'.documents
  Reach-KeepsRows {d} t here = KeepsRows-refl d.documents
  Reach-KeepsRows {d} t (next {t = e} {u = d'} r st) =
      KeepsRows-trans d.documents e.documents d'.documents (Reach-KeepsRows t r)
        (Step-KeepsRows pf (Reach-IsTable t r) st)

  -- A document that was deleted or has expired answers 410 for ever: whatever clients and jobs do
  -- after, a read by its slug goes on being refused as gone.
  pub gone_for_ever :
      (s : Str) {d d' : Database}
      → IsTable d
      → Reach pf d d'
      → get_by_slug s d ≡ failed gone
      → get_by_slug s d' ≡ failed gone
  gone_for_ever s {d} {d'} t run g =
      let (r, e, h) = gone_row s d g in
      let (r', e', later) = Reach-KeepsRows t run s r e in
      row_gone s d' r' e' (is_gone-leads r.status r'.status h later.status_leads)
