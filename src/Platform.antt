-- ===== src/Platform.antt =====
-- What the code takes from outside the repository: JSON encoding of a manifest, SHA-256, and the
-- object store behind internal/server/storage (the S3 client). Parameters of the model.
use mdfly.Common.{Str, ℤ, Option}
use mdfly.Manifest.Build.{Manifest}

-- What a HEAD request of an object answers: nothing there (NotFound or a 404), the object with its
-- Content-Length if the answer has one, or any other failure.
pub data Object : Type 0 where
  absent unreachable : Object
  present : Option ℤ → Object

pub record Platform : Type 0 where
  -- json.Marshal and json.Unmarshal of a Manifest; `none` is an error
  pub marshal : Manifest → Option Str
  pub unmarshal : Str → Option Manifest
  -- sha256.Sum256
  pub sha256 : Str → Str
  -- HeadObject of a key
  pub head_object : Str → Object
  -- PresignPutObject of a key with a length and a content type; `none` is an error
  pub presign_put : Str → ℤ → Str → Option Str
