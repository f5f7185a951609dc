-- ===== src/Tests/Init.antt =====
-- An init on the small world.
use mdfly.Slug.{
  generate_slug, generate_slug_from, generate, generate_from, push, letter, is_reserved,
}
use mdfly.Documents.Table.{published, has_key}
use mdfly.Manifest.Build.{Manifest}
use mdfly.Publish.Validate.{
  validate_init, validate_bundle, validate_files, file_error, hash_error, size_error, after_files,
}
use mdfly.Manifest.Keys.{blob_key, ext_from_path, prefix_key}
use mdfly.Manifest.Build.{files_of, from_dto}
use mdfly.Documents.Ops.{
  marshal_manifest, total_size, manifest_hash, get_by_idempotency_key, insert_pending, insert_row,
  new_row,
}
use mdfly.Common.Hex.{decode}
use mdfly.Common.Dict.{insert, lookup}
use mdfly.Blobs.{content_type, presign_put}
use mdfly.Publish.Blobs.{build_presigned_urls}
use mdfly.Common.{
  find, ◌+ℤ◌, wrap64, add64, Str, codes, str_eq, is_empty, cut_prefix, has_prefix, has_byte,
  to_lower, ext, pos, ℕ, ◌≡◌, refl, true, false, Option, some, [], ◌∷◌,
}
use mdfly.Tests.World.{row, platform, service, database}
use mdfly.Httpx.{ok}
use mdfly.Api.{InitRequest}
use mdfly.Publish.Init.{init, ensure_payload_matches, init_reply, init_write}
use mdfly.Publish.Init.Retry.{init_repeated}

abbrev any_letter : ℕ → Option ℕ
any_letter k = some 10

abbrev repeated_request : InitRequest
repeated_request = record {
  idempotency_key = codes "key-live";
  bundle = record {
    root_path = codes "a.md";
    project_root = [];
    files =
        record {
          path = codes "a.md";
          hash = codes "00112233445566778899aabbccddeeff00112233445566778899aabbccddeeff";
          size = pos 3;
        }
        ∷ [];
  };
  edit_token = codes "token";
}

abbrev upload_key : Str
upload_key =
    codes "documents/live/00112233445566778899aabbccddeeff00112233445566778899aabbccddeeff.md"

repeated_accepted :
    (init service any_letter true repeated_request 5 database).1
    ≡ ok (record {
      slug = codes "live";
      presigned_urls = (codes "a.md", upload_key) ∷ [];
      inline_accept = false;
    })
unfolding init validate_init validate_bundle validate_files file_error hash_error decode size_error
    after_files str_eq add64 from_dto generate_slug generate_slug_from generate generate_from push
    letter content_type presign_put cut_prefix ext has_byte has_prefix is_empty to_lower insert
    lookup wrap64 ◌+ℤ◌ get_by_idempotency_key insert_pending insert_row manifest_hash
    marshal_manifest new_row total_size files_of blob_key ext_from_path prefix_key
    build_presigned_urls ensure_payload_matches init_reply init_write is_reserved
repeated_accepted = refl

live_has_key :
    find (has_key (codes "key-live")) database.documents ≡ some (row 1 (codes "live") published)
unfolding str_eq
live_has_key = refl

init_repeated_example :
    (codes "live" ≡ codes "live")
    × ((init service any_letter true repeated_request 5 database).0.documents ≡ database.documents)
    × ((m : Manifest) × (from_dto repeated_request.bundle ≡ some m)
        × (manifest_hash platform m ≡ some (codes "a.md"))
        × (build_presigned_urls platform (codes "live") [] [] m.files_by_path
            ≡ ok ((codes "a.md", upload_key) ∷ [])))
init_repeated_example =
    init_repeated service any_letter true repeated_request 5 database live_has_key repeated_accepted
