-- ===== src/Client/Kinds.antt =====
-- The clients of the two kinds, as what implements their interfaces, in karydiaconfig.go and
-- karydianetworkpolicy.go of the typed clients.
use karydia.Common.{String, Option, List}
use karydia.Common.Run.{Error}
use karydia.Client.Requests.{
  Payloads, RestClient, ListOptions, get_named, list_all, watch_all, create, update, update_status,
  delete_named, delete_collection, patch_named,
}

-- KarydiaNetworkPolicyInterface
pub record KarydiaNetworkPolicyInterface (P : Payloads) : Type 0 where
  pub create : P.object → P.object × Option Error
  pub update : P.object → P.object × Option Error
  pub delete : String → P.delete_options → Option Error
  pub delete_collection : P.delete_options → ListOptions P.list_rest → Option Error
  pub get : String → P.get_options → P.object × Option Error
  pub list : ListOptions P.list_rest → P.objects × Option Error
  pub watch : ListOptions P.list_rest → P.watching × Option Error
  pub patch : String → P.patch_type → P.data_bytes → List String → P.object × Option Error

-- KarydiaConfigInterface, which has UpdateStatus besides
pub record KarydiaConfigInterface (P : Payloads) : Type 0 where
  pub common : KarydiaNetworkPolicyInterface P
  pub update_status : P.object → P.object × Option Error

module _ {P : Payloads} (client : RestClient P) where
  abbrev methods : String → KarydiaNetworkPolicyInterface P
  methods resource = record {
    create = create client resource;
    update = update client resource;
    delete = delete_named client resource;
    delete_collection = delete_collection client resource;
    get = get_named client resource;
    list = list_all client resource;
    watch = watch_all client resource;
    patch = patch_named client resource;
  }

  -- newKarydiaNetworkPolicies, with its methods
  unfoldable pub new_karydia_network_policies : KarydiaNetworkPolicyInterface P
  new_karydia_network_policies = methods "karydianetworkpolicies"

  -- newKarydiaConfigs, with its methods
  unfoldable pub new_karydia_configs : KarydiaConfigInterface P
  new_karydia_configs = record {
    common = methods "karydiaconfigs";
    update_status = update_status client "karydiaconfigs";
  }
