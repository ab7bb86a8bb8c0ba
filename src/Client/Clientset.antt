-- ===== src/Client/Clientset.antt =====
-- pkg/client/clientset/versioned/clientset.go, and karydia_client.go of the version: how the clients of a
-- configuration are made.
use karydia.Common.{
  String, Bool, false, ◌&&◌, ◌≡◌, refl, Option, none, some, ◌==◌, is_nil, if◌then◌else◌, arith,
}
use karydia.Common.Run.{Result, ok, err, Run, returns, panics, ◌>>=◌}

-- The types of rate limiters, of rates, which are floats, of serializers, and of the rest of a
-- configuration.
pub record Settings : Type 1 where
  pub limiter : Type 0
  pub qps : Type 0
  pub serializer : Type 0
  pub others : Type 0

-- rest.Config
pub record RestConfig (S : Settings) : Type 0 where
  pub rate_limiter : Option S.limiter
  pub qps : S.qps
  pub group_version : Option (String × String)
  pub api_path : String
  pub negotiated_serializer : Option S.serializer
  pub user_agent : String
  pub others : S.others

-- The calls of client-go. The burst is among the other settings.
pub record ClientGo (S : Settings) (Rest Discovery : Type 0) : Type 0 where
  pub is_positive : S.qps → Bool
  pub new_token_bucket_rate_limiter : S.qps → S.others → S.limiter
  pub without_conversion : S.serializer
  pub default_kubernetes_user_agent : String
  pub rest_client_for : RestConfig S → Result Rest
  pub new_discovery_client_for_config : RestConfig S → Result Discovery
  pub new_discovery_client_for_config_or_die : RestConfig S → Run Discovery

pub record Clientset (Rest Discovery : Type 0) : Type 0 where
  pub karydia_v1alpha1 : Rest
  pub discovery_client : Discovery

module _ {Rest Discovery : Type 0} where
  -- New, for a client of client-go, which makes one for discovery of it
  unfoldable pub new_clientset : (Rest → Discovery) → Rest → Clientset Rest Discovery
  new_clientset new_discovery_client c = record {
    karydia_v1alpha1 = c;
    discovery_client = new_discovery_client c;
  }

  -- Discovery, of a clientset that may be nil
  unfoldable pub discovery_of : Option (Clientset Rest Discovery) → Option Discovery
  discovery_of none = none
  discovery_of (some cs) = some cs.discovery_client

-- `if err != nil { panic(err) }`
abbrev pub or_die : {A : Type 0} → Result A → Run A
or_die (ok a) = returns a
or_die (err e) = panics

module _ {S : Settings} {Rest Discovery : Type 0} (go : ClientGo S Rest Discovery) where
  unfoldable pub set_config_defaults : RestConfig S → RestConfig S
  set_config_defaults config = record config {
    group_version = some ("karydia.gardener.cloud", "v1alpha1");
    api_path = "/apis";
    negotiated_serializer = some go.without_conversion;
    user_agent =
        if config.user_agent == "" then go.default_kubernetes_user_agent else config.user_agent;
  }

  -- NewForConfig of the version. setConfigDefaults returns no error.
  unfoldable pub new_version_for_config : RestConfig S → Result Rest
  new_version_for_config c = go.rest_client_for (set_config_defaults c)

  unfoldable pub new_version_for_config_or_die : RestConfig S → Run Rest
  new_version_for_config_or_die c = or_die (new_version_for_config c)

  -- The copy of the configuration with the limiter that the clients share.
  unfoldable pub with_shared_limiter : RestConfig S → RestConfig S
  with_shared_limiter c =
      if is_nil c.rate_limiter && go.is_positive c.qps
      then record c { rate_limiter = some (go.new_token_bucket_rate_limiter c.qps c.others) }
      else c

  -- NewForConfig with the copy
  unfoldable pub clients_of : RestConfig S → Result (Clientset Rest Discovery)
  clients_of config_shallow_copy = elim (new_version_for_config config_shallow_copy) [
    | err e ↦ err e
    | ok client ↦ elim (go.new_discovery_client_for_config config_shallow_copy) [
      | err e ↦ err e
      | ok discovery ↦ ok record { karydia_v1alpha1 = client; discovery_client = discovery }
    ]
  ]

  unfoldable pub new_for_config : RestConfig S → Result (Clientset Rest Discovery)
  new_for_config c = clients_of (with_shared_limiter c)

  unfoldable pub new_for_config_or_die : RestConfig S → Run (Clientset Rest Discovery)
  new_for_config_or_die c = new_version_for_config_or_die c >>= λ client.
      go.new_discovery_client_for_config_or_die c >>= λ discovery.
      returns record { karydia_v1alpha1 = client; discovery_client = discovery }

  clients_of-or_die :
      (c : RestConfig S)
      → go.new_discovery_client_for_config_or_die c ≡ or_die (go.new_discovery_client_for_config c)
      → new_for_config_or_die c ≡ or_die (clients_of c)
  unfolding new_for_config_or_die clients_of new_version_for_config_or_die
  clients_of-or_die c e = ground arith

  with_shared_limiter-same :
      (c : RestConfig S)
      → (is_nil c.rate_limiter && go.is_positive c.qps) ≡ false
      → with_shared_limiter c ≡ c
  unfolding with_shared_limiter
  with_shared_limiter-same c e = rw e refl

  -- If client-go's function for discovery panics exactly on the errors of the one without OrDie, then
  -- NewForConfigOrDie panics exactly on the errors of NewForConfig and gives the same clients otherwise,
  -- for a configuration that has a rate limiter or whose rate is not positive.
  pub new_for_config_or_die-or_die :
      (dies : (c : RestConfig S)
        → go.new_discovery_client_for_config_or_die c
          ≡ or_die (go.new_discovery_client_for_config c))
      (c : RestConfig S)
      → (is_nil c.rate_limiter && go.is_positive c.qps) ≡ false
      → new_for_config_or_die c ≡ or_die (new_for_config c)
  unfolding new_for_config
  new_for_config_or_die-or_die dies c e =
      rw (with_shared_limiter-same c e) (clients_of-or_die c (dies c))
