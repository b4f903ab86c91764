-- ===== src/Sdk/Client/Site.antt =====
-- coder-sdk/config.go, workspace_providers.go, satellite.go, webrtc.go and version.go.
use coder_cli.Prelude.{Bool, Option, none, some, List, [], if◌then◌else◌}
use coder_cli.Prelude.Texts.{Bytes, codes, same}
use coder_cli.Prelude.Dict.{lookup}
use coder_cli.Prelude.Results.{Result, ok, err, ◌>>=◌}
use coder_cli.Cmd.Api.{Provider}
use coder_cli.Sdk.Http.{
  Json, Http, DefaultClient, SdkError, get, post, put, patch, delete, no_payload, as_json,
  no_options, request,
}
use coder_cli.Sdk.Client.{fetch, send, submit, ◌/◌}

abbrev pub pools_path : Bytes
pools_path = codes "/api/private/resource-pools"

abbrev satellites_path : Bytes
satellites_path = codes "/api/private/satellites"

-- WorkspaceProviders, satellites and getICEServersRes: a field around the list
pub record Listed (A : Type 0) : Type 0 where
  pub items : List A

-- configSetupMode
pub record SetupMode : Type 0 where
  pub enabled : Bool

-- createSatelliteResponse
pub record Created (A : Type 0) : Type 0 where
  pub item : A

-- CordoneWorkspaceProviderReq and RenameWorkspaceProviderReq
pub record TextReq : Type 0 where
  pub text : Bytes

abbrev pub items_of : {A : Type 0} → Result SdkError (Listed A) → Result SdkError (List A)
items_of (ok l) = ok l.items
items_of (err e) = err e

abbrev item_of : {A : Type 0} → Result SdkError (Created A) → Result SdkError A
item_of (ok r) = ok r.item
item_of (err e) = err e

abbrev mode_of : Result SdkError SetupMode → Result SdkError Bool
mode_of (ok m) = ok m.enabled
mode_of (err e) = err e

module _ (http : Http) (c : DefaultClient) where
  -- SiteConfigAuth and the three like it
  pub site_config_auth : {C : Type 0} ⦃j : Json C⦄ → Result SdkError C
  site_config_auth = fetch http c (codes "/api/private/auth/config") no_options

  pub site_config_oauth : {C : Type 0} ⦃j : Json C⦄ → Result SdkError C
  site_config_oauth = fetch http c (codes "/api/private/oauth/config") no_options

  pub site_config_marketplace : {C : Type 0} ⦃j : Json C⦄ → Result SdkError C
  site_config_marketplace = fetch http c (codes "/api/private/extensions/config") no_options

  pub site_config_workspaces : {C : Type 0} ⦃j : Json C⦄ → Result SdkError C
  site_config_workspaces = fetch http c (codes "/api/private/config") no_options

  -- PutSiteConfigAuth, PutSiteConfigOAuth and PutSiteConfigExtensionMarketplace
  pub put_site_config_auth : {C : Type 0} ⦃j : Json C⦄ → C → Result SdkError (Unit {0})
  put_site_config_auth conf = send http c put (codes "/api/private/auth/config") (as_json conf)

  pub put_site_config_oauth : {C : Type 0} ⦃j : Json C⦄ → C → Result SdkError (Unit {0})
  put_site_config_oauth conf = send http c put (codes "/api/private/oauth/config") (as_json conf)

  pub put_site_config_marketplace : {C : Type 0} ⦃j : Json C⦄ → C → Result SdkError (Unit {0})
  put_site_config_marketplace conf =
      send http c put (codes "/api/private/extensions/config") (as_json conf)

  -- SiteSetupModeEnabled
  pub site_setup_mode_enabled : ⦃j : Json SetupMode⦄ → Result SdkError Bool
  site_setup_mode_enabled =
      mode_of (fetch http c (codes "/api/private/config/setup-mode") no_options)

  -- WorkspaceProviderByID
  pub workspace_provider_by_id : ⦃j : Json Provider⦄ → Bytes → Result SdkError Provider
  workspace_provider_by_id id = fetch http c (pools_path / id) no_options

  -- WorkspaceProviders
  unfoldable pub workspace_providers :
      ⦃j : Json (Listed Provider)⦄ → Result SdkError (Listed Provider)
  workspace_providers = fetch http c pools_path no_options

  -- CreateWorkspaceProvider
  pub create_workspace_provider : {R S : Type 0} ⦃j : Json R⦄ ⦃k : Json S⦄ → R → Result SdkError S
  create_workspace_provider req = submit http c post pools_path (as_json req) no_options

  -- DeleteWorkspaceProviderByID
  pub delete_workspace_provider_by_id : Bytes → Result SdkError (Unit {0})
  delete_workspace_provider_by_id id = send http c delete (pools_path / id) no_payload

  -- CordonWorkspaceProvider
  pub cordon_workspace_provider : ⦃j : Json TextReq⦄ → Bytes → Bytes → Result SdkError (Unit {0})
  cordon_workspace_provider id reason =
      send http c post (pools_path / id / codes "cordon")
        (as_json {A = TextReq} (record { text = reason }))

  -- UnCordonWorkspaceProvider
  pub uncordon_workspace_provider : Bytes → Result SdkError (Unit {0})
  uncordon_workspace_provider id = send http c post (pools_path / id / codes "uncordon") no_payload

  -- RenameWorkspaceProvider
  pub rename_workspace_provider : ⦃j : Json TextReq⦄ → Bytes → Bytes → Result SdkError (Unit {0})
  rename_workspace_provider id name =
      send http c patch (pools_path / id) (as_json {A = TextReq} (record { text = name }))

  -- Satellites
  pub satellites : {S : Type 0} ⦃j : Json (Listed S)⦄ → Result SdkError (List S)
  satellites = items_of (fetch http c satellites_path no_options)

  -- CreateSatellite
  pub create_satellite : {R S : Type 0} ⦃j : Json R⦄ ⦃k : Json (Created S)⦄ → R → Result SdkError S
  create_satellite req = item_of (submit http c post satellites_path (as_json req) no_options)

  -- DeleteSatelliteByID
  pub delete_satellite_by_id : Bytes → Result SdkError (Unit {0})
  delete_satellite_by_id id = send http c delete (satellites_path / id) no_payload

  -- ICEServers
  pub ice_servers : {S : Type 0} ⦃j : Json (Listed S)⦄ → Result SdkError (List S)
  ice_servers = items_of (fetch http c (codes "/api/private/webrtc/ice") no_options)

  -- a missing or empty header
  abbrev version_of : Option Bytes → Bytes
  version_of none = codes "unknown"
  version_of (some v) = if same v [] then codes "unknown" else v

  -- APIVersion
  unfoldable pub api_version : Result SdkError Bytes
  api_version = do
    resp ← request http c get (codes "/api") no_payload no_options
    ok (version_of (lookup (codes "coder-version") resp.header))
