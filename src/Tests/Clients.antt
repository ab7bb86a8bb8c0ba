-- ===== src/Tests/Clients.antt =====
-- Tests of the clients and the informers.
use karydia.Common.{
  Option, none, ltb, ◌==◌, if◌then◌else◌, ℕ, ◌≤◌, ◌++◌, ◌↔◌, String, false, ◌≡◌, refl, some, List,
  [], ◌∷◌,
}
use karydia.Common.Dict.{lookup, insert}
use karydia.Common.Run.{errorf, Result, ok, err, returns}
use karydia.Client.Clientset.{
  Settings, RestConfig, ClientGo, or_die, new_for_config, new_for_config_or_die, clients_of,
  with_shared_limiter, new_version_for_config, new_version_for_config_or_die, set_config_defaults,
}
use karydia.Client.Informers.{
  Shapes, KindCalls, Kind, karydia_config, SharedInformerFactory, NewInformerFunc, start,
  informer_for, new_filtered_informer, informer_of, with_custom_resync_config, with_namespace,
  with_tweak_list_options, new_shared_informer_factory_with_options,
}
use karydia.Client.Once.{Call, start_call, informer_for_call, run_call, run_calls, run_calls-once}
use karydia.Client.Loops.{starts}
use karydia.Client.Requests.{Payloads, ListOptions, list_of, watch_of, delete_collection_of}
use karydia.Client.Timeouts.{WaitsFor, timeout_bounds}

-- An informer is what it lists with no option, and its period.
abbrev plain : Shapes
plain = record {
  client = String;
  options = List String;
  listed = List String;
  watched = List String;
  duration = ℕ;
  informer = List String × ℕ;
}

abbrev kind_calls : Kind → KindCalls plain
kind_calls kind = record {
  list = λ client options. client ∷ options;
  watch = λ client options. options;
  new_shared_index_informer = λ lw resync_period. (lw.list_func [], resync_period);
}

abbrev minutes : SharedInformerFactory plain
minutes = new_shared_informer_factory_with_options "clientset" 30 (
    with_custom_resync_config (("*v1alpha1.KarydiaConfig", 60) ∷ [])
    ∷ with_namespace "karydia"
    ∷ with_tweak_list_options (some (λ options. "name=karydia" ∷ options))
    ∷ [])

abbrev stock_informer : NewInformerFunc plain
stock_informer client resync_period = (client ∷ [], resync_period)

-- A new informer has the period and the filter that the options give for it.
minutes_config :
    (informer_of kind_calls karydia_config minutes).1 ≡ ("clientset" ∷ "name=karydia" ∷ [], 60)
unfolding informer_of informer_for lookup new_shared_informer_factory_with_options
    with_tweak_list_options with_namespace with_custom_resync_config new_filtered_informer insert
minutes_config = refl

abbrev some_calls : List (Call plain)
some_calls =
    start_call
    ∷ informer_for_call "stock" stock_informer
    ∷ start_call
    ∷ start_call
    ∷ informer_for_call "cart" stock_informer
    ∷ []

run_calls-once_example :
    let (asked, launched) = run_calls some_calls minutes in
    starts "stock" (launched ++ (start asked).1) ≡ 1
unfolding new_shared_informer_factory_with_options with_tweak_list_options with_namespace
    with_custom_resync_config lookup run_calls run_call informer_for start insert
run_calls-once_example = run_calls-once "stock" some_calls minutes refl

abbrev texts : Payloads
texts = record {
  object = String;
  objects = List String;
  watching = String;
  get_options = String;
  list_rest = String;
  delete_options = String;
  patch_type = String;
  data_bytes = List ℕ;
}

abbrev a_minute : ListOptions String
a_minute = record { timeout_seconds = some 60; watch = false; others = "" }

timeout_bounds_example :
    (WaitsFor 60 (list_of {P = texts} "karydiaconfigs" a_minute) ↔ 60 ≤ 9223372036)
    × (WaitsFor 60 (watch_of {P = texts} "karydiaconfigs" a_minute) ↔ 60 ≤ 9223372036)
    × (WaitsFor 60 (delete_collection_of {P = texts} "karydiaconfigs" "" a_minute)
        ↔ 60 ≤ 9223372036)
timeout_bounds_example = timeout_bounds texts "karydiaconfigs" "" a_minute 60 refl

abbrev numbers : Settings
numbers = record { limiter = ℕ; qps = ℕ; serializer = String; others = String }

-- A client is the texts and the limiter that it was made from; one of an unknown host is refused.
abbrev client_for : RestConfig numbers → Result (String × String × Option ℕ)
client_for c =
    if c.others == "nowhere"
    then err (errorf "no host")
    else ok (c.api_path, c.user_agent, c.rate_limiter)

abbrev client_go : ClientGo numbers (String × String × Option ℕ) (String × String × Option ℕ)
client_go = record {
  is_positive = ltb 0;
  new_token_bucket_rate_limiter = λ qps burst. qps;
  without_conversion = "codecs";
  default_kubernetes_user_agent = "karydia";
  rest_client_for = client_for;
  new_discovery_client_for_config = client_for;
  new_discovery_client_for_config_or_die = λ c. or_die (client_for c);
}

abbrev limited : RestConfig numbers
limited = record {
  rate_limiter = some 7;
  qps = 5;
  group_version = none;
  api_path = "";
  negotiated_serializer = none;
  user_agent = "";
  others = "localhost";
}

-- Both clients share the limiter that is made, and have it from NewForConfigOrDie only if it was given.
limited_clients :
    (new_for_config client_go (record limited { rate_limiter = none })
      ≡ ok record {
        karydia_v1alpha1 = ("/apis", "karydia", some 5);
        discovery_client = ("", "", some 5);
      })
    × (new_for_config_or_die client_go (record limited { rate_limiter = none })
        ≡ returns record {
          karydia_v1alpha1 = ("/apis", "karydia", none);
          discovery_client = ("", "", none);
        })
unfolding new_for_config new_for_config_or_die clients_of with_shared_limiter new_version_for_config
    new_version_for_config_or_die set_config_defaults
limited_clients = (refl, refl)
