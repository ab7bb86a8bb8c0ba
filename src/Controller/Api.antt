-- ===== src/Controller/Api.antt =====
-- The calls of the controllers that go out of the program: the API server through its clientsets, the
-- caches of the informers, the bytes of a specification, and the keys of the work queues. Calls that
-- change the cluster return the new one beside an error or nil.
use karydia.Common.{String, Option, false, true, none, some, ◌≡◌, ◌==◌, ◌&&◌}
use karydia.Common.Run.{Error, Result, ok, err}
use karydia.Kube.{Namespace, NetworkPolicy}
use karydia.Kube.Custom.{KarydiaNetworkPolicy}
use karydia.Kube.Review.{Bytes}

pub record Api (Spec World : Type 0) : Type 0 where
  -- kubeclientset.CoreV1().Namespaces().Get and namespacesLister.Get
  pub get_namespace : String → World → Result Namespace
  pub list_namespace : String → World → Result Namespace
  -- kubeclientset.NetworkingV1().NetworkPolicies(namespace): Get, Create, Update, Delete
  pub get_policy : String → String → World → Result (NetworkPolicy Spec)
  pub create_policy : String → NetworkPolicy Spec → World → World × Option Error
  pub update_policy : String → NetworkPolicy Spec → World → World × Option Error
  pub delete_policy : String → String → World → World × Option Error
  -- networkPolicyLister.NetworkPolicies(namespace).Get
  pub list_policy : String → String → World → Result (NetworkPolicy Spec)
  -- karydiaClientset.KarydiaV1alpha1().KarydiaNetworkPolicies().Get
  pub get_karydia_policy : String → World → Result (KarydiaNetworkPolicy Spec)
  -- Spec.Marshal, whose error the program drops
  pub marshal : Spec → Bytes
  -- cache.SplitMetaNamespaceKey
  pub split_key : String → Result (String × String)

module _ {Spec World : Type 0} (api : Api Spec World)
    (policy : World → String → String → Option (NetworkPolicy Spec)) where
  -- `policy w ns name` is what the cluster holds. Whatever a call that changes the cluster answers, it
  -- touches no other policy than the one that it names.
  pub record IsFramed : Type 0 where
    pub create_frame :
        (ns : String) (p : NetworkPolicy Spec) (w : World) (ns' n' : String)
        → (ns == ns' && p.meta.name == n') ≡ false
        → policy (api.create_policy ns p w).0 ns' n' ≡ policy w ns' n'
    pub update_frame :
        (ns : String) (p : NetworkPolicy Spec) (w : World) (ns' n' : String)
        → (ns == ns' && p.meta.name == n') ≡ false
        → policy (api.update_policy ns p w).0 ns' n' ≡ policy w ns' n'
    pub delete_frame :
        (ns n : String) (w : World) (ns' n' : String)
        → (ns == ns' && n == n') ≡ false
        → policy (api.delete_policy ns n w).0 ns' n' ≡ policy w ns' n'

  -- The calls succeed where the API documents it, and the caches are up to date.
  pub record IsReliable : Type 0 where
    pub framed : IsFramed
    pub list_missing :
        (ns n : String) (w : World)
        → policy w ns n ≡ none
        → (e : Error) × (api.list_policy ns n w ≡ err e) × (e.is_not_found ≡ true)
    pub list_found :
        (ns n : String) (w : World) (p : NetworkPolicy Spec)
        → policy w ns n ≡ some p
        → api.list_policy ns n w ≡ ok p
    pub get_missing :
        (ns n : String) (w : World)
        → policy w ns n ≡ none
        → (e : Error) × (api.get_policy ns n w ≡ err e)
    pub get_found :
        (ns n : String) (w : World) (p : NetworkPolicy Spec)
        → policy w ns n ≡ some p
        → api.get_policy ns n w ≡ ok p
    pub created :
        (ns : String) (p : NetworkPolicy Spec) (w : World)
        → policy w ns p.meta.name ≡ none
        → ((api.create_policy ns p w).1 ≡ none)
          × (policy (api.create_policy ns p w).0 ns p.meta.name ≡ some p)
    pub updated :
        (ns : String) (p q : NetworkPolicy Spec) (w : World)
        → policy w ns p.meta.name ≡ some q
        → ((api.update_policy ns p w).1 ≡ none)
          × (policy (api.update_policy ns p w).0 ns p.meta.name ≡ some p)
    pub deleted :
        (ns n : String) (w : World) (q : NetworkPolicy Spec)
        → policy w ns n ≡ some q
        → ((api.delete_policy ns n w).1 ≡ none) × (policy (api.delete_policy ns n w).0 ns n ≡ none)
