-- ===== src/Tests/World.antt =====
-- A small world: a platform, two rows, and links on which every call gets through.
use mdfly.Common.{Str, codes, str_eq, pos, ℕ, refl, true, none, some, [], ◌∷◌, ◌++◌, arith}
use mdfly.Publish.Service.{Service}
use mdfly.Platform.{Platform, present}
use mdfly.Documents.Table.{published, pending, deleted, Status, Document, Database}
use mdfly.Manifest.Build.{Manifest}
use mdfly.Documents.Tx.{applied, TxLink}
use mdfly.Documents.Invariant.{IsTable}

abbrev pub one_file : Str → Manifest
one_file path = record {
  root_path = path;
  project_root = [];
  files_by_path = (path, record { hash = codes "00"; size = pos 3 }) ∷ [];
}

-- A manifest is written as its root path, a hash is the text itself, every object has three bytes.
abbrev pub platform : Platform
platform = record {
  marshal = λ m. some m.root_path;
  unmarshal = λ j. some (one_file j);
  sha256 = λ s. s;
  head_object = λ k. present (some (pos 3));
  presign_put = λ k n t. some k;
}

abbrev pub service : Service
service = record { platform = platform; base_url = codes "https://mdfly"; purger = true }

abbrev pub row : ℕ → Str → Status → Document
row id s status = record {
  id = id;
  slug = s;
  idempotency_key = codes "key-" ++ s;
  status = status;
  manifest_json = codes "a.md";
  manifest_hash = codes "a.md";
  edit_token_hash = codes "token";
  bytes_total = pos 3;
  file_count = 1;
  expires_at = some 100;
  created_at = 0;
  updated_at = 0;
  deleted_at = none;
  blobs_deleted_at = none;
}

abbrev pub database : Database
database = record {
  documents =
      row 1 (codes "live") published
      ∷ row 2 (codes "new") pending
      ∷ row 3 (codes "old") deleted
      ∷ [];
  purge_queue = [];
  next_id = 4;
}

pub database-IsTable : IsTable database
unfolding str_eq
database-IsTable = record {
  unique_ids = (refl, (refl, (refl, tt)));
  ids_below = (omega arith, (omega arith, (omega arith, tt)));
  unique_slugs = (refl, (refl, (refl, tt)));
  unique_keys = (refl, (refl, (refl, tt)));
}

abbrev pub tx_link : TxLink
tx_link = record { begins = true; writes = true; enqueues = true; commits = applied }

abbrev pub idle : Database → Database
idle d = d
