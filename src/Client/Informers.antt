-- ===== src/Client/Informers.antt =====
-- pkg/client/informers/externalversions: the factory that shares one informer for each type, with the
-- two kinds of karydia/v1alpha1. Every method of the factory holds its lock, so concurrent calls are a
-- sequence of calls.
use karydia.Common.{
  String, Bool, true, false, ◌&&◌, Option, none, some, List, [], ◌∷◌, ◌++◌ as append, ◌==◌,
  if◌then◌else◌,
}
use karydia.Common.Dict.{Dict, lookup, insert}
use karydia.Common.Run.{errorf, Result, ok, err}

-- The types that client-go and the clients give: options of a list request, what listing and watching
-- return, periods and informers.
pub record Shapes : Type 1 where
  pub client : Type 0
  pub options : Type 0
  pub listed : Type 0
  pub watched : Type 0
  pub duration : Type 0
  pub informer : Type 0

pub record ListWatch (S : Shapes) : Type 0 where
  pub list_func : S.options → S.listed
  pub watch_func : S.options → S.watched

-- The client's List and Watch for a kind, and cache.NewSharedIndexInformer for it.
pub record KindCalls (S : Shapes) : Type 0 where
  pub list : S.client → S.options → S.listed
  pub watch : S.client → S.options → S.watched
  pub new_shared_index_informer : ListWatch S → S.duration → S.informer

pub data Kind : Type 0 where
  karydia_config karydia_network_policy : Kind

-- reflect.TypeOf of the kind's object
abbrev pub type_of : Kind → String
type_of karydia_config = "*v1alpha1.KarydiaConfig"
type_of karydia_network_policy = "*v1alpha1.KarydiaNetworkPolicy"

pub record GroupVersionResource : Type 0 where
  pub group : String
  pub version : String
  pub resource : String

pub record GroupResource : Type 0 where
  pub group : String
  pub resource : String

module _ (S : Shapes) where
  pub record GenericInformer : Type 0 where
    pub informer : S.informer
    pub resource : GroupResource

  pub record SharedInformerFactory : Type 0 where
    pub client : S.client
    pub namespace : String
    pub tweak_list_options : Option (S.options → S.options)
    pub default_resync : S.duration
    pub custom_resync : Dict S.duration
    pub informers : Dict S.informer
    pub started_informers : Dict Bool

  abbrev pub NewInformerFunc : Type 0
  NewInformerFunc = S.client → S.duration → S.informer

-- A type that the map does not have is not started.
abbrev pub or_false : Option Bool → Bool
or_false none = false
or_false (some b) = b

abbrev pub or_else : {A : Type 0} → Option A → A → A
or_else none a = a
or_else (some b) a = b

-- Options as the filter of the factory leaves them.
abbrev pub tweaked : {Options : Type 0} → Option (Options → Options) → Options → Options
tweaked none options = options
tweaked (some tweak) options = tweak options

-- The loops over informers. A call that runs an informer, `go informer.Run(stopCh)`, is an entry of the
-- second result.
module _ {Informer : Type 0} where
  -- The body of the loop of Start.
  unfoldable pub start_one : String → Informer → Dict Bool → Dict Bool × List (String × Informer)
  start_one t i started =
      if or_false (lookup t started) then (started, []) else (insert t true started, (t, i) ∷ [])

  unfoldable pub start_each : Dict Informer → Dict Bool → Dict Bool × List (String × Informer)
  start_each [] started = (started, [])
  start_each ((t, i) ∷ rest) started =
      let (now, launched) = start_one t i started in
      let (later, others) = start_each rest now in (later, append launched others)

  -- The started informers with what cache.WaitForCacheSync answers for each.
  unfoldable pub synced_each : (Informer → Bool) → Dict Informer → Dict Bool → Dict Bool
  synced_each wait [] started = []
  synced_each wait ((t, i) ∷ rest) started =
      let others = synced_each wait rest started in
      if or_false (lookup t started) then insert t (wait i) others else others

module _ {S : Shapes} where
  -- WithCustomResyncConfig, for the types of the objects
  unfoldable pub with_custom_resync_config :
      Dict S.duration → SharedInformerFactory S → SharedInformerFactory S
  with_custom_resync_config [] f = f
  with_custom_resync_config ((t, d) ∷ rest) f =
      with_custom_resync_config rest (record f { custom_resync = insert t d f.custom_resync })

  unfoldable pub with_tweak_list_options :
      Option (S.options → S.options) → SharedInformerFactory S → SharedInformerFactory S
  with_tweak_list_options tweak f = record f { tweak_list_options = tweak }

  unfoldable pub with_namespace : String → SharedInformerFactory S → SharedInformerFactory S
  with_namespace namespace f = record f { namespace = namespace }

  abbrev apply_options :
      List (SharedInformerFactory S → SharedInformerFactory S)
      → SharedInformerFactory S
      → SharedInformerFactory S
  apply_options [] f = f
  apply_options (o ∷ os) f = apply_options os (o f)

  unfoldable pub new_shared_informer_factory_with_options :
      S.client
      → S.duration
      → List (SharedInformerFactory S → SharedInformerFactory S)
      → SharedInformerFactory S
  new_shared_informer_factory_with_options client default_resync options =
      apply_options options record {
        client = client;
        namespace = "";
        tweak_list_options = none;
        default_resync = default_resync;
        custom_resync = [];
        informers = [];
        started_informers = [];
      }

  unfoldable pub new_shared_informer_factory : S.client → S.duration → SharedInformerFactory S
  new_shared_informer_factory client default_resync =
      new_shared_informer_factory_with_options client default_resync []

  unfoldable pub start :
      SharedInformerFactory S → SharedInformerFactory S × List (String × S.informer)
  start f =
      let (started, launched) = start_each f.informers f.started_informers in
      (record f { started_informers = started }, launched)

  -- InformerFor
  unfoldable pub informer_for :
      String → NewInformerFunc S → SharedInformerFactory S → SharedInformerFactory S × S.informer
  informer_for t new_func f = elim (lookup t f.informers) [
    | some informer ↦ (f, informer)
    | none ↦
        let resync_period = or_else (lookup t f.custom_resync) f.default_resync in
        let informer = new_func f.client resync_period in
        (record f { informers = insert t informer f.informers }, informer)
  ]

  unfoldable pub wait_for_cache_sync : (S.informer → Bool) → SharedInformerFactory S → Dict Bool
  wait_for_cache_sync wait f = synced_each wait f.informers f.started_informers

  -- NewFilteredKarydiaConfigInformer, NewFilteredKarydiaNetworkPolicyInformer
  unfoldable pub new_filtered_informer :
      KindCalls S → S.client → S.duration → Option (S.options → S.options) → S.informer
  new_filtered_informer calls client resync_period tweak =
      calls.new_shared_index_informer
        record {
          list_func = λ options. calls.list client (tweaked tweak options);
          watch_func = λ options. calls.watch client (tweaked tweak options);
        }
        resync_period

  abbrev pub generic_informer :
      GroupVersionResource
      → SharedInformerFactory S × S.informer
      → SharedInformerFactory S × GenericInformer S
  generic_informer r (f, informer) = (
    f,
    record { informer = informer; resource = record { group = r.group; resource = r.resource } },
  )

  module _ (calls : Kind → KindCalls S) where
    -- Informer of a kind, with its defaultInformer
    unfoldable pub informer_of :
        Kind → SharedInformerFactory S → SharedInformerFactory S × S.informer
    informer_of kind f =
        informer_for (type_of kind)
          (λ client resync_period.
            new_filtered_informer (calls kind) client resync_period f.tweak_list_options)
          f

    abbrev is_resource : String → GroupVersionResource → Bool
    is_resource name r =
        r.group == "karydia.gardener.cloud" && r.version == "v1alpha1" && r.resource == name

    -- ForResource; the text of the resource in the error is left out.
    unfoldable pub for_resource :
        GroupVersionResource
        → SharedInformerFactory S
        → Result (SharedInformerFactory S × GenericInformer S)
    for_resource r f =
        if is_resource "karydiaconfigs" r
        then ok (generic_informer r (informer_of karydia_config f))
        else if is_resource "karydianetworkpolicies" r
        then ok (generic_informer r (informer_of karydia_network_policy f))
        else err (errorf "no informer found for %v")
