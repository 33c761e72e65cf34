-- ===== src/Keppel.antt =====
-- cloudprofilesync/ossync/gc/gc.go: reading the push times of tags from a Keppel registry.
-- Of `net/http`, making a request and sending it are the parameters `new_request` and `send`: a
-- response has a status and, for the body, what the JSON decoder makes of it. `net/url`'s printing of
-- a scheme and a host is `url_string`.
pub mod Laws
pub mod Pushed
use cloud_profile_sync.Common.{
  ℕ, String, Option, none, some, Bool, true, false, ◌||◌, List, [], ◌∷◌, ◌==◌, nat_eq, string_eq,
  if◌then◌else◌,
}
use cloud_profile_sync.Common.Int.{ℤ, pos, negsuc}
use cloud_profile_sync.Common.Text.{replace_all, cut, ◌<>◌}
use cloud_profile_sync.Common.Dict.{Dict, insert}
use cloud_profile_sync.Common.Result.{Result, ok, err, plain, ◌>>=◌, ◌>>◌, wrapped}
use cloud_profile_sync.Gardener.{Time}

pub record KeppelTag : Type 0 where
  pub name : String
  -- Unix seconds
  pub pushed_at : ℤ

pub record KeppelManifest : Type 0 where
  pub digest : String
  pub pushed_at : ℤ
  pub tags : List KeppelTag

unfoldable pub normalize_tag : String → String
unfolding replace_all
normalize_tag tag = replace_all tag b'_' "+"

unfoldable pub split_keppel_repository : String → Result (String × String)
unfolding cut
split_keppel_repository repository =
    let invalid = err (
      plain "invalid repository format %q, must be <account>/<repository-path>"
        (repository ∷ [])) in
    elim (cut repository b'/') [
      | none ↦ invalid
      | some (account, repo) ↦ if account == "" || repo == "" then invalid else ok (account, repo)
    ]

unfoldable pub keppel_url : String → String → Result String
unfolding split_keppel_repository
keppel_url base_url repository = do
  parts ← split_keppel_repository repository
  ok (base_url <> "/keppel/v1/accounts/" <> parts.0 <> "/repositories/" <> parts.1 <> "/_manifests")

abbrev is_zero : ℤ → Bool
is_zero (pos n) = n == 0
is_zero (negsuc n) = false

-- `http.Client` with its transport, times in seconds.
pub record HttpClient : Type 0 where
  pub timeout : ℕ
  pub tls_handshake_timeout : ℕ
  pub tls_min_version : ℕ

-- `tls.VersionTLS12` is 0x0303.
abbrev pub http_client : HttpClient
http_client = record { timeout = 30; tls_handshake_timeout = 10; tls_min_version = 771 }

-- What the client gets back: the status and the decoded body.
pub record Response : Type 0 where
  pub status : ℕ
  pub body : Result (List KeppelManifest)

module _ (unix : ℤ → Time) where
  unfoldable pub add_tags : List KeppelTag → Dict String Time → Dict String Time
  unfolding insert
  add_tags [] tag_map = tag_map
  add_tags (t ∷ ts) tag_map =
      add_tags ts
        (if is_zero t.pushed_at then tag_map else insert t.name (unix t.pushed_at) tag_map)

  unfoldable pub add_manifests : List KeppelManifest → Dict String Time → Dict String Time
  unfolding add_tags
  add_manifests [] tag_map = tag_map
  add_manifests (m ∷ ms) tag_map = add_manifests ms (add_tags m.tags tag_map)

  module _ {Request : Type 0} (url_string : String → String → String)
      (new_request : String → Result Request) (send : HttpClient → Request → Result Response) where
    unfoldable pub registry_base_url : String → Bool → String
    registry_base_url registry_host insecure =
        url_string (if insecure then "http" else "https") registry_host

    abbrev check_status : Response → Result (List KeppelManifest)
    check_status resp =
        if resp.status == 200 then resp.body else err (plain "keppel API returned status %d" [])

    unfoldable pub fetch_keppel_tags : String → String → Result (Dict String Time)
    unfolding registry_base_url keppel_url add_manifests
    fetch_keppel_tags registry repository = do
      url ←
          wrapped "failed to build keppel URL: %w" []
            (keppel_url (registry_base_url registry false) repository)
      req ← wrapped "failed to create keppel request: %w" [] (new_request url)
      resp ← send http_client req
      manifests ← check_status resp
      ok (add_manifests manifests [])
