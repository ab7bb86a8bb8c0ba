-- ===== src/Controller/Policies.antt =====
-- networkpolicy_reconciler.go: the reconciler's state and its handlers. `defaultNetworkPolicies`,
-- a map of pointers, is a dictionary; a nil pointer read from it panics.
pub mod Sync
pub mod Ensure
pub mod Total
use Prim.Native.String.{◌++◌}
use karydia.Common.{
  String, Bool, true, false, not, ◌&&◌, ◌||◌, Option, none, some, List, [], ◌∷◌, ◌==◌, is_nil,
  not_nil, num_eq, if◌then◌else◌,
}
use mathlib.Core.List
use karydia.Common.Dict.{Dict, lookup, insert}
use karydia.Common.Run.{Error, errorf, Result, ok, err, Run, returns, panics, deref, ◌>>=◌}
use karydia.Common.Text.{concat, split}
use karydia.Kube.{ObjectMeta, Namespace, NetworkPolicy}
use karydia.Kube.Custom.{KarydiaConfig, KarydiaNetworkPolicy}
use karydia.Kube.Review.{Bytes}
use karydia.Controller.Api.{Api}

pub record NetworkpolicyReconciler (Spec : Type 0) : Type 0 where
  pub default_enforcement : Bool
  pub default_network_policy_names : String
  pub default_network_policies : Dict (NetworkPolicy Spec)
  pub default_network_policy_excludes : List String

pub record Setting : Type 0 where
  pub value : String
  pub src : String

module _ {Spec : Type 0} where
  unfoldable pub new_networkpolicy_reconciler :
      Dict (NetworkPolicy Spec) → Bool → String → List String → NetworkpolicyReconciler Spec
  new_networkpolicy_reconciler policies enforcement names excludes = record {
    default_enforcement = enforcement;
    default_network_policy_names = names;
    default_network_policies = policies;
    default_network_policy_excludes = excludes;
  }

  unfoldable pub update_config :
      KarydiaConfig → NetworkpolicyReconciler Spec → NetworkpolicyReconciler Spec
  update_config config r = record r {
    default_enforcement = config.spec.enforcement;
    default_network_policy_names = config.spec.network_policies;
  }

  unfoldable pub get_default_networkpolicy_setting :
      NetworkpolicyReconciler Spec → Namespace → Setting
  get_default_networkpolicy_setting r ns =
      let from_config : Setting = record {
        value = r.default_network_policy_names;
        src = "config";
      } in
      elim (lookup "karydia.gardener.cloud/networkPolicy" ns.meta.annotations) [
        | none ↦ from_config
        | some names ↦
            if r.default_enforcement
            then from_config
            else record { value = names; src = "namespace" }
      ]

-- The error of updateBuffer.
abbrev pub load_failure : String → Error
load_failure name = errorf (concat ("Failed to get karydia network policy '" ∷ name ∷ "'" ∷ []))

-- bytes.Equal
unfoldable pub bytes_equal : Bytes → Bytes → Bool
bytes_equal [] [] = true
bytes_equal (a ∷ as_rest) (b ∷ bs) = num_eq a b && bytes_equal as_rest bs
bytes_equal _ _ = false

unfoldable pub string_in_slice : String → List String → Bool
string_in_slice a [] = false
string_in_slice a (b ∷ list) = b == a || string_in_slice a list

-- strings.Split(setting.value, ";")
abbrev pub expected_names : Setting → List String
expected_names setting = split b';' setting.value

-- The reconciler and the cluster that it acts on.
pub record State (Spec World : Type 0) : Type 0 where
  pub reconciler : NetworkpolicyReconciler Spec
  pub open reconciler use *
  pub world : World

module _ {Spec World : Type 0} (api : Api Spec World) where
  abbrev pub St : Type 0
  St = State Spec World

  abbrev pub buffered : String → State Spec World → Option (NetworkPolicy Spec)
  buffered name s = lookup name s.default_network_policies

  -- A policy that was just made: a name and a specification.
  abbrev pub named_policy : String → Spec → NetworkPolicy Spec
  named_policy name spec = record {
    meta = record {
      name = name;
      namespace = "";
      resource_version = "";
      annotations = [];
      deletion_timestamp = none;
    };
    spec = spec;
  }

  abbrev pub remember : String → NetworkPolicy Spec → St → St
  remember name p s = record s {
    reconciler = record s.reconciler {
      default_network_policies = insert name p s.default_network_policies;
    };
  }

  unfoldable pub update_buffer : String → State Spec World → State Spec World × Option Error
  update_buffer name s = elim (api.get_karydia_policy name s.world) [
    | err e ↦ (s, some (load_failure name))
    | ok p ↦ (remember name (named_policy name p.spec) s, none)
  ]

  -- An error that the API call returned, or nil, beside the new cluster.
  abbrev pub in_world : St → World × Option Error → St × Option Error
  in_world s (w, e) = (record s { world = w }, e)

  unfoldable pub create_default_network_policy :
      String → String → Setting → State Spec World → Run (State Spec World × Option Error)
  create_default_network_policy ns name setting s = deref (buffered name s) >>= λ desired. returns (
      in_world s (
        api.create_policy ns
          (record desired {
            meta = record desired.meta {
              namespace = ns;
              annotations =
                  ("karydia.gardener.cloud/networkPolicy.internal", setting.src ++ ("/" ++ name))
                  ∷ [];
            };
          })
          s.world))

  unfoldable pub update_default_network_policy :
      String → String → State Spec World → Run (State Spec World × Option Error)
  update_default_network_policy ns name s = deref (buffered name s) >>= λ desired. returns (
      in_world s (
        api.update_policy ns (record desired { meta = record desired.meta { namespace = ns } })
          s.world))

  unfoldable pub reconcile_is_needed : NetworkPolicy Spec → String → State Spec World → Run Bool
  reconcile_is_needed actual name s = deref (buffered name s) >>= λ desired.
      returns (not (bytes_equal (api.marshal actual.spec) (api.marshal desired.spec)))

  -- fmt.Errorf("error syncing '%s': %v", label, err) for an error of a call.
  abbrev pub wrap : String → St × Option Error → Run (St × Option Error)
  wrap label (s, none) = returns (s, none)
  wrap label (s, some e) =
      returns (s, some (errorf (concat ("error syncing '" ∷ label ∷ "': " ∷ e.message ∷ []))))

  -- The end of syncNetworkPolicy and of syncNamespace, which differ in the label of one error: create
  -- the policy if it is missing, update it if its specification differs. In the branch behind
  -- `else if err != nil` of both, err is nil.
  unfoldable pub reconcile_policy :
      String → String → String → Setting → State Spec World → Run (State Spec World × Option Error)
  reconcile_policy label ns name setting s = elim (api.list_policy ns name s.world) [
    | err e ↦
        if e.is_not_found
        then (create_default_network_policy ns name setting s >>= wrap ns)
        else returns (s, some e)
    | ok actual ↦ reconcile_is_needed actual name s >>= λ needed.
        if needed
        then (update_default_network_policy ns name s >>= wrap label)
        else returns (s, none)
  ]

  unfoldable pub ensure_buffered : String → State Spec World → State Spec World × Option Error
  ensure_buffered name s = if is_nil (buffered name s) then update_buffer name s else (s, none)

  -- The loop of syncNetworkPolicy over the expected names.
  unfoldable pub fill_buffer : List String → State Spec World → State Spec World × Option Error
  fill_buffer [] s = (s, none)
  fill_buffer (name ∷ names) s =
      let (s', e) = ensure_buffered name s in
      elim e [ none ↦ fill_buffer names s' | some failed ↦ (s', some failed) ]

  -- What follows once the names are in the buffer.
  unfoldable pub sync_expected :
      String → String → Setting → State Spec World → Run (State Spec World × Option Error)
  sync_expected ns name setting s =
      if string_in_slice name (expected_names setting)
      then (deref (buffered name s) >>= λ desired.
          if name == desired.meta.name
          then reconcile_policy name ns name setting s
          else returns (s, none))
      else returns (s, none)

  unfoldable pub sync_network_policy :
      String → String → Setting → State Spec World → Run (State Spec World × Option Error)
  sync_network_policy ns name setting s =
      let (s', e) = fill_buffer (expected_names setting) s in
      elim e [ none ↦ sync_expected ns name setting s' | some failed ↦ returns (s', none) ]

  unfoldable pub sync_namespace :
      String → String → Setting → State Spec World → Run (State Spec World × Option Error)
  sync_namespace name ns setting s =
      let (s', e) = ensure_buffered name s in
      elim e [ none ↦ reconcile_policy ns ns name setting s' | some failed ↦ returns (s', none) ]
