-- ===== src/Glance/Client.antt =====
-- `defaultAuthenticate` and `defaultListImages` of cloudprofilesync/ossync/source/glance/os_source.go.
-- The calls of gophercloud are parameters: `new_client`, `authenticate`, `new_image_v2`, `all_pages`
-- and `extract_images`.
use cloud_profile_sync.Common.{ℕ, ◌≡◌, sym, String, List, [], ◌∷◌, map}
use cloud_profile_sync.Common.Result.{Result, ok, ◌>>=◌, >>=-eq-ok, wrapped, wrapped-eq-ok, ok_inj}
use cloud_profile_sync.Semver.{Semver}
use cloud_profile_sync.Source.{SourceImage}
use cloud_profile_sync.Glance.{
  Glance, AuthOptions, GlanceImage, auth_options, canonical_images, region_image, discover_region,
}

-- `gophercloud.ProviderClient`: its HTTP client's timeout in seconds, and the rest.
pub record ProviderClient (Session : Type 0) : Type 0 where
  pub session : Session
  pub http_timeout : ℕ

-- The fields of `images.ListOpts` that the program sets.
pub record ListOpts : Type 0 where
  pub visibility : String
  pub limit : ℕ

-- `glanceRequestTimeout`, in seconds
abbrev pub request_timeout : ℕ
request_timeout = 60

abbrev pub list_opts : ListOpts
list_opts = record { visibility = "public"; limit = 1000 }

module _ {Session : Type 0} (new_client : String → Result (ProviderClient Session))
    (authenticate : ProviderClient Session → AuthOptions → Result (ProviderClient Session)) where
  -- `openstack.Authenticate` changes the provider, so that it answers with it.
  unfoldable pub default_authenticate : String → AuthOptions → Result (ProviderClient Session)
  default_authenticate auth_url opts = do
    provider ← new_client auth_url
    authenticate (record provider { http_timeout = request_timeout })
        (record opts { identity_endpoint = auth_url })

module _ {Session ServiceClient Pages : Type 0}
    (new_image_v2 : ProviderClient Session → String → Result ServiceClient)
    (all_pages : ServiceClient → ListOpts → Result Pages)
    (extract_images : Pages → Result (List GlanceImage)) where
  unfoldable pub default_list_images : ProviderClient Session → String → Result (List GlanceImage)
  default_list_images provider region = do
    client ← new_image_v2 provider region
    pages ← all_pages client list_opts
    extract_images pages

module _ {Session ServiceClient Pages : Type 0} (S : Semver) (sprintf : String → String → String)
    (new_client : String → Result (ProviderClient Session))
    (authenticate : ProviderClient Session → AuthOptions → Result (ProviderClient Session))
    (new_image_v2 : ProviderClient Session → String → Result ServiceClient)
    (all_pages : ServiceClient → ListOpts → Result Pages)
    (extract_images : Pages → Result (List GlanceImage)) where
  -- If a region's images are found, then a provider was made for the region's URL, it was
  -- authenticated at that URL with the timeout of a minute, the public images were listed with it
  -- in that region, and what is found are the canonical ones of these.
  pub discover_region_asks :
      (g : Glance) (region : String) (found : List SourceImage)
      → discover_region S sprintf
          (default_authenticate new_client authenticate)
          (default_list_images new_image_v2 all_pages extract_images)
          g
          region
        ≡ ok found
      → let url = sprintf g.params.auth_url_format region in
        (made : ProviderClient Session) × (provider : ProviderClient Session)
        × (client : ServiceClient) × (pages : Pages) × (imgs : List GlanceImage) × (new_client url
            ≡ ok made)
        × (authenticate
              (record made { http_timeout = 60 })
              (record (auth_options g.params) { identity_endpoint = url })
            ≡ ok provider)
        × (new_image_v2 provider region ≡ ok client)
        × (all_pages client list_opts ≡ ok pages)
        × (extract_images pages ≡ ok imgs)
        × (found ≡ map (region_image S region) (canonical_images S g imgs []))
  unfolding discover_region default_authenticate default_list_images
  discover_region_asks g region found h =
      let url = sprintf g.params.auth_url_format region in
      let signed = default_authenticate new_client authenticate url (auth_options g.params) in
      let (provider, p, rest) =
        >>=-eq-ok (wrapped "region %s: authenticate: %w" (region ∷ []) signed) _ h in
      let listed = default_list_images new_image_v2 all_pages extract_images provider region in
      let (imgs, q, last) =
        >>=-eq-ok (wrapped "region %s: list images: %w" (region ∷ []) listed) _ rest in
      let (made, made_e, auth_e) = >>=-eq-ok (new_client url) _ (wrapped-eq-ok _ _ signed p) in
      let (client, client_e, after) =
        >>=-eq-ok (new_image_v2 provider region) _ (wrapped-eq-ok _ _ listed q) in
      let (pages, pages_e, images_e) = >>=-eq-ok (all_pages client list_opts) _ after in
      (
        made,
        provider,
        client,
        pages,
        imgs,
        made_e,
        auth_e,
        client_e,
        pages_e,
        images_e,
        sym (ok_inj last),
      )
