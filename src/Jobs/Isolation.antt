-- ===== src/Jobs/Isolation.antt =====
-- src/jobs.rs: whose jobs a caller sees.
use mathlib.Core.List.{Memᴰ}
use kaiion.Prelude.{String, ◌≡◌, List}
use kaiion.Db.Table.{RequestRow, Database}
use kaiion.Request.Headers.{UpstreamAuth}
use kaiion.Request.Normalize.{Crates, fingerprint}

-- The job's request was stored under these credentials and this provider.
pub record Owns (auth_hash provider : String) (db : Database) (id : String) : Type 0 where
  pub request : RequestRow
  pub listed : Memᴰ request db.requests
  pub of_job : request.job_id ≡ id
  pub of_caller : request.auth_hash ≡ auth_hash
  pub of_provider : request.provider ≡ provider

module _ (crates : Crates) (provider : String) (auth : UpstreamAuth) (db : Database) where
  abbrev Mine : String → Type 0
  Mine = Owns (fingerprint crates auth) provider db
