-- ===== src/Config.antt =====
-- internal/config/config.go: the configuration from the environment. `getenv` is os.Getenv, which
-- gives an empty text for a variable that is not set.
pub mod Bounds
use xiesg0915_work.Prelude.{
  ℕ, String, Bool, List, [], ◌∷◌, Option, none, some, ◌==◌, map, ltb, if◌then◌else◌,
}
use xiesg0915_work.Prelude.Strings.{ℤ, pos, negsuc, atoi, split, trim_space}

pub record Config : Type 0 where
  pub http_addr : String
  pub database_url : String
  pub minio_endpoint : String
  pub minio_key : String
  pub minio_secret : String
  pub minio_bucket : String
  pub minio_region : String
  pub minio_use_tls : Bool
  pub report_dir : String
  pub workers : ℤ
  pub chunk_bytes : ℤ
  pub checkpoint_every : ℤ
  pub stale_after_sec : ℤ
  pub device_path_prefix : String

unfoldable pub minio_bucket_or : String → Config → String
minio_bucket_or def c = if c.minio_bucket == "" then def else c.minio_bucket

-- `if v < least { v = least }`
unfoldable pub at_least : ℕ → ℤ → ℤ
at_least least (pos n) = if ltb n least then pos least else pos n
at_least least (negsuc n) = pos least

module _ (getenv : String → String) where
  unfoldable pub getenv_or : (k def : String) → String
  getenv_or k def = if getenv k == "" then def else getenv k

  unfoldable pub getenv_int : String → ℤ → ℤ
  unfolding atoi
  getenv_int k def =
      if getenv k == "" then def else elim (atoi (getenv k)) [ none ↦ def | some n ↦ n ]

  -- Load
  unfoldable pub load : Config
  unfolding getenv_or getenv_int at_least
  load = record {
    http_addr = getenv_or "HTTP_ADDR" ":8080";
    database_url = getenv "DATABASE_URL";
    minio_endpoint = getenv "MINIO_ENDPOINT";
    minio_key = getenv "MINIO_ACCESS_KEY";
    minio_secret = getenv "MINIO_SECRET_KEY";
    minio_bucket = getenv_or "MINIO_BUCKET" "erasure-reports";
    minio_region = getenv_or "MINIO_REGION" "us-east-1";
    minio_use_tls = getenv_or "MINIO_USE_TLS" "false" == "true";
    report_dir = getenv_or "REPORT_DIR" "./reports";
    workers = at_least 1 (getenv_int "WORKERS" (pos 4));
    chunk_bytes = at_least 4096 (getenv_int "CHUNK_BYTES" (pos 4194304));
    checkpoint_every = getenv_int "CHECKPOINT_EVERY_BYTES" (pos 67108864);
    stale_after_sec = getenv_int "STALE_AFTER_SEC" (pos 120);
    device_path_prefix = getenv_or "DEVICE_PATH_PREFIX" "/dev/";
  }

-- The prefixes that AllowedDevicePath tries, one after the other.
unfoldable pub device_prefixes : Config → List String
unfolding split trim_space
device_prefixes c = map trim_space (split b',' c.device_path_prefix)
