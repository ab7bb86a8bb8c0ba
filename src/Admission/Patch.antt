-- ===== src/Admission/Patch.antt =====
-- What a patch of the plugin does to a pod: the `add` operations of RFC 6902 at the places of a pod
-- that the model has. The API server applies the patch; this is the description that the plugin's
-- patches are measured by.
use mathlib.Core.Option
use karydia.Common.{
  ℕ, zero, suc, String, Bool, ◌&&◌, ◌≡◌, refl, Option, none, some, List, ◌++◌, ◌==◌, if◌then◌else◌,
  length,
}
use karydia.Common.Dict.{insert, is_empty}
use karydia.Common.Decimal.{parse_index}
use karydia.Common.Pointer.{tokens}
use karydia.Kube.{Pod, PodSecurityContext, Container}
use karydia.Admission.Types.{
  PatchValue, text, number, flag, text_map, security_context, PatchOperation,
}

pub data Location : Type 0 where
  annotations pod_context pod_user pod_group : Location
  annotation : String → Location
  container_context container_escalation : ℕ → Location

abbrev at_container : (ℕ → Location) → String → Option Location
at_container f index = Option.map f (parse_index index)

-- The place that the tokens of a path name.
unfoldable pub locate : List String → Option Location
locate (List.◌∷◌ a (List.◌∷◌ b List.[])) =
    if a == "metadata" && b == "annotations"
    then some annotations
    else if a == "spec" && b == "securityContext"
    then some pod_context
    else none
locate (List.◌∷◌ a (List.◌∷◌ b (List.◌∷◌ c List.[]))) =
    if a == "metadata" && b == "annotations"
    then some (annotation c)
    else if a == "spec" && b == "securityContext" && c == "runAsUser"
    then some pod_user
    else if a == "spec" && b == "securityContext" && c == "runAsGroup"
    then some pod_group
    else none
locate (List.◌∷◌ a (List.◌∷◌ b (List.◌∷◌ i (List.◌∷◌ c List.[])))) =
    if a == "spec" && b == "containers" && c == "securityContext"
    then at_container container_context i
    else none
locate (List.◌∷◌ a (List.◌∷◌ b (List.◌∷◌ i (List.◌∷◌ c (List.◌∷◌ d List.[]))))) =
    if a == "spec" && b == "containers" && c == "securityContext" && d == "allowPrivilegeEscalation"
    then at_container container_escalation i
    else none
locate _ = none

-- Change the element at an index, which has to be there.
unfoldable pub update_at {ℓ} : {A : Type ℓ} → ℕ → (A → Option A) → List A → Option (List A)
update_at i f List.[] = none
update_at zero f (List.◌∷◌ x xs) = Option.map (λ y. List.◌∷◌ y xs) (f x)
update_at (suc i) f (List.◌∷◌ x xs) = Option.map (List.◌∷◌ x) (update_at i f xs)

abbrev pub with_annotations : List (String × String) → Pod → Pod
with_annotations m pod = record pod { meta = record pod.meta { annotations = m } }

abbrev pub with_context : Option PodSecurityContext → Pod → Pod
with_context c pod = record pod { spec = record pod.spec { security_context = c } }

abbrev pub with_containers : List Container → Pod → Pod
with_containers cs pod = record pod { spec = record pod.spec { containers = cs } }

abbrev pub allow_escalation : Bool → Container → Option Container
allow_escalation b c =
    Option.map
      (λ sc. record c {
        security_context = some (record sc { allow_privilege_escalation = some b });
      })
      c.security_context

-- `add` at a place. The object around the place has to exist; an object without members is left out
-- of a pod's JSON form.
unfoldable pub add_at : Location → PatchValue → Pod → Option Pod
add_at annotations (text_map m) pod = some (with_annotations m pod)
add_at (annotation k) (text v) pod =
    if is_empty pod.meta.annotations
    then none
    else some (with_annotations (insert k v pod.meta.annotations) pod)
add_at pod_context (security_context sc) pod = some (
    with_context (some (record { run_as_user = sc.run_as_user; run_as_group = sc.run_as_group }))
      pod)
add_at pod_user (number n) pod =
    Option.map (λ sc. with_context (some (record sc { run_as_user = some n })) pod)
      pod.spec.security_context
add_at pod_group (number n) pod =
    Option.map (λ sc. with_context (some (record sc { run_as_group = some n })) pod)
      pod.spec.security_context
add_at (container_context i) (security_context sc) pod =
    Option.map (λ cs. with_containers cs pod)
      (update_at i (λ c. some (record c { security_context = some sc })) pod.spec.containers)
add_at (container_escalation i) (flag b) pod =
    Option.map (λ cs. with_containers cs pod) (update_at i (allow_escalation b) pod.spec.containers)
add_at _ _ pod = none

infixl 5 ◌>>=◌
abbrev pub ◌>>=◌ {ℓ κ} : {A : Type ℓ} {B : Type κ} → Option A → (A → Option B) → Option B
none >>= f = none
some a >>= f = f a

unfoldable pub apply_operation : PatchOperation → Pod → Option Pod
apply_operation o pod =
    if o.op == "add" then (locate (tokens o.path) >>= λ l. add_at l o.value pod) else none

-- A patch is applied as a whole or not at all.
unfoldable pub apply : List PatchOperation → Pod → Option Pod
apply List.[] pod = some pod
apply (List.◌∷◌ o os) pod = apply_operation o pod >>= apply os

bind-bind :
    (m : Option Pod) (f g h : Pod → Option Pod)
    → ((q : Pod) → h q ≡ (f q >>= g))
    → (m >>= h) ≡ ((m >>= f) >>= g)
bind-bind none f g h e = refl
bind-bind (some q) f g h e = e q

pub apply-append :
    (xs ys : List PatchOperation) (pod : Pod) → apply (xs ++ ys) pod ≡ (apply xs pod >>= apply ys)
unfolding apply
apply-append List.[] ys pod = refl
apply-append (List.◌∷◌ o os) ys pod =
    bind-bind (apply_operation o pod) (apply os) (apply ys) (apply (os ++ ys)) (apply-append os ys)

-- One more operation at the end of a patch.
pub apply-concat :
    (xs : List PatchOperation) (o : PatchOperation) (pod q : Pod)
    → apply xs pod ≡ some q
    → apply (xs ++ List.◌∷◌ o List.[]) pod ≡ apply_operation o q
unfolding apply
apply-concat xs o pod q e =
    rw (apply-append xs (List.◌∷◌ o List.[]) pod, e) (bind-some (apply_operation o q))
  where
    bind-some : (r : Option Pod) → (r >>= some) ≡ r
    bind-some none = refl
    bind-some (some p) = refl

-- The element behind a prefix is the one at the index that is the prefix's length.
pub update_at-append {ℓ} :
    {A : Type ℓ} (xs ys : List A) (x y : A) (f : A → Option A)
    → f x ≡ some y
    → update_at (length xs) f (xs ++ List.◌∷◌ x ys) ≡ some (xs ++ List.◌∷◌ y ys)
unfolding update_at
update_at-append List.[] ys x y f e = rw e
update_at-append (List.◌∷◌ z zs) ys x y f e = rw (update_at-append zs ys x y f e)
