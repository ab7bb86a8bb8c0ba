-- ===== src/Client/Once.antt =====
-- The factory of informers over any sequence of its calls: what is run, what is shared, and what is
-- waited for.
use mathlib.Core.Option
use karydia.Common.{
  ◌+◌, String, Bool, true, false, ◌≡◌, refl, ap, none, some, List, [], ◌∷◌, ◌++◌, arith, eq_iff,
  is_nil, if◌then◌else◌,
}
use karydia.Common.Dict.{lookup, lookup-insert, lookup-insert_self}
use karydia.Common.Run.{ok}
use karydia.Client.Informers.{
  Shapes, KindCalls, Kind, karydia_config, karydia_network_policy, type_of, GroupVersionResource,
  GroupResource, generic_informer, SharedInformerFactory, NewInformerFunc, or_false, or_else,
  start_each, start, informer_for, wait_for_cache_sync, informer_of, for_resource,
  new_filtered_informer,
}
use karydia.Client.Loops.{starts, flag, starts-append, start_each-flag, synced_each-lookup}

-- A call of one of the two methods that change a factory.
pub data Call (S : Shapes) : Type 0 where
  start_call : Call S
  informer_for_call : String → NewInformerFunc S → Call S

module _ {S : Shapes} where
  unfoldable pub run_call :
      Call S → SharedInformerFactory S → SharedInformerFactory S × List (String × S.informer)
  run_call start_call f = start f
  run_call (informer_for_call t new_func) f = ((informer_for t new_func f).0, [])

  -- Calls in the order in which they get the lock, and the informers that they run.
  unfoldable pub run_calls :
      List (Call S) → SharedInformerFactory S → SharedInformerFactory S × List (String × S.informer)
  run_calls [] f = (f, [])
  run_calls (c ∷ cs) f =
      let (next, launched) = run_call c f in
      let (last, others) = run_calls cs next in (last, launched ++ others)

-- Every type that is started is the type of an informer.
abbrev IsKnown : String → {S : Shapes} → SharedInformerFactory S → Type 0
IsKnown t f = or_false (lookup t f.started_informers) ≡ true → is_nil (lookup t f.informers) ≡ false

module _ {S : Shapes} where
  informer_for-started :
      (u : String) (g : NewInformerFunc S) (f : SharedInformerFactory S)
      → (informer_for u g f).0.started_informers ≡ f.started_informers
  unfolding informer_for
  informer_for-started u g f = ground arith

  informer_for-keeps :
      (t u : String) (g : NewInformerFunc S) (f : SharedInformerFactory S) (i : S.informer)
      → lookup t f.informers ≡ some i
      → lookup t (informer_for u g f).0.informers ≡ some i
  unfolding informer_for
  informer_for-keeps t u g f i e =
      let new = g f.client (or_else (lookup u f.custom_resync) f.default_resync) in
      let added = lookup-insert u t new f.informers in ground (arith, eq_iff u t)

  informer_for-lookup :
      (u : String) (g : NewInformerFunc S) (f : SharedInformerFactory S)
      → lookup u (informer_for u g f).0.informers ≡ some (informer_for u g f).1
  unfolding informer_for
  informer_for-lookup u g f =
      let new = g f.client (or_else (lookup u f.custom_resync) f.default_resync) in
      let added = lookup-insert_self u new f.informers in ground arith

  informer_for-found :
      (t : String) (g : NewInformerFunc S) (f : SharedInformerFactory S) (i : S.informer)
      → lookup t f.informers ≡ some i
      → informer_for t g f ≡ (f, i)
  unfolding informer_for
  informer_for-found t g f i e = ground arith

  -- What one call does to a type: how often it is run, and what stays.
  run_call-flag :
      (t : String) (c : Call S) (f : SharedInformerFactory S)
      → let (next, launched) = run_call c f in
        IsKnown t f
        → (starts t launched + flag t f.started_informers ≡ flag t next.started_informers)
          × IsKnown t next
  unfolding run_call start informer_for starts
  run_call-flag t start_call f known =
      let each = start_each-flag t f.informers f.started_informers in ground arith
  run_call-flag t (informer_for_call u new_func) f known =
      let new = new_func f.client (or_else (lookup u f.custom_resync) f.default_resync) in
      let added = lookup-insert u t new f.informers in ground (arith, eq_iff u t)

  run_calls-flag :
      (t : String) (cs : List (Call S)) (f : SharedInformerFactory S)
      → let (last, launched) = run_calls cs f in
        IsKnown t f
        → (starts t launched + flag t f.started_informers ≡ flag t last.started_informers)
          × IsKnown t last
  unfolding run_calls starts
  run_calls-flag t [] f known = (omega arith, known)
  run_calls-flag t (c ∷ cs) f known =
      let (one, now_known) = run_call-flag t c f known in
      let (rest, still_known) = run_calls-flag t cs (run_call c f).0 now_known in
      let split = starts-append t (run_call c f).1 (run_calls cs (run_call c f).0).1 in
      (omega arith, still_known)

  -- Whatever calls a factory got that has started nothing, and in whatever order: once Start is called
  -- after them, each type that the factory has an informer of has been run once, and no other was run.
  pub run_calls-once :
      (t : String) (cs : List (Call S)) (f : SharedInformerFactory S)
      → f.started_informers ≡ []
      → let (asked, launched) = run_calls cs f in
        starts t (launched ++ (start asked).1)
        ≡ (if is_nil (lookup t asked.informers) then 0 else 1)
  unfolding start lookup
  run_calls-once t cs f e =
      let (asked, launched) = run_calls cs f in
      let fresh : lookup t f.started_informers ≡ none = rw e refl in
      let (before, known) = run_calls-flag t cs f (ground arith) in
      let each = start_each-flag t asked.informers asked.started_informers in
      let split = starts-append t launched (start asked).1 in ground arith

  run_calls-keeps :
      (t : String) (cs : List (Call S)) (f : SharedInformerFactory S) (i : S.informer)
      → lookup t f.informers ≡ some i
      → lookup t (run_calls cs f).0.informers ≡ some i
  unfolding run_calls run_call start
  run_calls-keeps t [] f i e = e
  run_calls-keeps t (start_call ∷ cs) f i e = run_calls-keeps t cs (start f).0 i e
  run_calls-keeps t (informer_for_call u g ∷ cs) f i e =
      run_calls-keeps t cs (informer_for u g f).0 i (informer_for-keeps t u g f i e)

  -- After Start, WaitForCacheSync waits for every informer of the factory and for no other, and gives for
  -- its type what the wait for that informer answered.
  pub wait_for_cache_sync-start :
      (wait : S.informer → Bool) (t : String) (f : SharedInformerFactory S)
      → lookup t (wait_for_cache_sync wait (start f).0) ≡ Option.map wait (lookup t f.informers)
  unfolding wait_for_cache_sync start
  wait_for_cache_sync-start wait t f =
      let later = (start_each f.informers f.started_informers).0 in
      let synced = synced_each-lookup t wait f.informers later in
      let each = start_each-flag t f.informers f.started_informers in ground arith

abbrev pub resource_of : Kind → GroupVersionResource
resource_of karydia_config = record {
  group = "karydia.gardener.cloud";
  version = "v1alpha1";
  resource = "karydiaconfigs";
}
resource_of karydia_network_policy = record {
  group = "karydia.gardener.cloud";
  version = "v1alpha1";
  resource = "karydianetworkpolicies";
}

module _ {S : Shapes} (calls : Kind → KindCalls S) where
  abbrev default_informer : Kind → SharedInformerFactory S → NewInformerFunc S
  default_informer kind f client resync_period =
      new_filtered_informer (calls kind) client resync_period f.tweak_list_options

  informer_of-shares :
      (kind : Kind) (cs : List (Call S)) (f : SharedInformerFactory S)
      → let (asked, informer) = informer_of calls kind f in
        let later = (run_calls cs asked).0 in informer_of calls kind later ≡ (later, informer)
  unfolding informer_of
  informer_of-shares kind cs f =
      let (asked, informer) = informer_of calls kind f in
      let later = (run_calls cs asked).0 in
      informer_for-found (type_of kind) (default_informer kind later) later informer (
        run_calls-keeps (type_of kind) cs asked informer
          (informer_for-lookup (type_of kind) (default_informer kind f) f))

abbrev pub group_resource_of : GroupVersionResource → GroupResource
group_resource_of r = record { group = r.group; resource = r.resource }

-- The informer that a caller got for one of the two kinds is what every later caller gets for the kind's
-- resource, whatever calls came between them, and the factory stays as it is.
pub for_resource-shares :
    {S : Shapes} (calls : Kind → KindCalls S) (kind : Kind) (cs : List (Call S))
    (f : SharedInformerFactory S)
    → let (asked, informer) = informer_of calls kind f in
      let (later, launched) = run_calls cs asked in
      for_resource calls (resource_of kind) later
      ≡ ok (later, record { informer = informer; resource = group_resource_of (resource_of kind) })
unfolding for_resource
for_resource-shares calls karydia_config cs f =
    ap (λ r. ok (generic_informer (resource_of karydia_config) r))
      (informer_of-shares calls karydia_config cs f)
for_resource-shares calls karydia_network_policy cs f =
    ap (λ r. ok (generic_informer (resource_of karydia_network_policy) r))
      (informer_of-shares calls karydia_network_policy cs f)
