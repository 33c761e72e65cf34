-- ===== src/OciRepo.antt =====
-- cloudprofilesync/ocirepo/ocirepo.go. The client of oras-go is a parameter: `new_repository`.
use cloud_profile_sync.Common.{
  String, Option, none, some, Bool, not, ◌&&◌, ◌==◌, string_eq, if◌then◌else◌,
}
use cloud_profile_sync.Common.Text.{◌<>◌}
use cloud_profile_sync.Common.Result.{Result, ok, ◌>>=◌}

pub record Params : Type 0 where
  pub registry : String
  pub repository : String
  pub username : String
  pub password : String
  pub insecure : Bool

-- `auth.StaticCredential`
pub record Credential : Type 0 where
  pub registry : String
  pub username : String
  pub password : String

-- `remote.Repository`, with the fields that `New` sets; the client is none for the default one.
pub record Repository (Remote : Type 0) : Type 0 where
  pub remote : Remote
  pub client : Option Credential
  pub plain_http : Bool

module _ {Remote : Type 0} (new_repository : String → Result Remote) where
  unfoldable pub new : Params → Result (Repository Remote)
  new params = do
    remote ← new_repository (params.registry <> "/" <> params.repository)
    ok (record {
      remote = remote;
      client =
          if not (params.username == "") && not (params.password == "")
          then some (record {
            registry = params.registry;
            username = params.username;
            password = params.password;
          })
          else none;
      plain_http = params.insecure;
    })
