-- ===== src/Objects.antt =====
-- internal/objectstore: the objects that reports and certificates are stored as.
pub mod Paths
pub mod Filesystem
pub mod Keys
pub mod Stored
pub mod Signed
pub mod Escapes
pub mod Remote
pub mod Verification
pub mod Exchange
use xiesg0915_work.Prelude.{ℕ, String, List}

abbrev pub Bytes : Type 0
Bytes = List ℕ

pub record Object : Type 0 where
  pub key : String
  pub size : ℕ
  pub sha256 : String
  pub content_type : String
  pub last_modified : String
