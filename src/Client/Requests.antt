-- ===== src/Client/Requests.antt =====
-- pkg/client/clientset/versioned/typed/karydia/v1alpha1: the clients of the two kinds, karydiaconfig.go and
-- karydianetworkpolicy.go. They are the same code but for the types, the resource and UpdateStatus, which
-- only the first has. What a request does is the REST client's.
use karydia.Common.{ℕ, String, Bool, true, Option, none, some, List, [], ◌∷◌, ◌*◌, ◌%◌}
use karydia.Common.Run.{Error}

-- The options of a list request: those that the code reads or writes, and the others.
pub record ListOptions (Rest : Type 0) : Type 0 where
  -- the bits of an int64, if it is given
  pub timeout_seconds : Option ℕ
  pub watch : Bool
  pub others : Rest

-- The types of the objects and lists, of watches, and of the options and bodies.
pub record Payloads : Type 1 where
  pub object : Type 0
  pub objects : Type 0
  pub watching : Type 0
  pub get_options : Type 0
  pub list_rest : Type 0
  pub delete_options : Type 0
  pub patch_type : Type 0
  pub data_bytes : Type 0

pub data Verb (P : Payloads) : Type 0 where
  get post put delete : Verb P
  patch : P.patch_type → Verb P

pub data Params (P : Payloads) : Type 0 where
  no_params : Params P
  get_params : P.get_options → Params P
  list_params : ListOptions P.list_rest → Params P

pub data Body (P : Payloads) : Type 0 where
  no_body : Body P
  object_body : P.object → Body P
  options_body : P.delete_options → Body P
  data_body : P.data_bytes → Body P

-- A request as the builder of the REST client was told it. A timeout is the bits of an int64, in
-- nanoseconds.
pub record Request (P : Payloads) : Type 0 where
  pub verb : Verb P
  pub resource : String
  pub name : Option String
  pub sub_resource : List String
  pub params : Params P
  pub timeout : ℕ
  pub body : Body P

-- rest.Interface: Do().Into, which is given the object to write to, Watch() and Do().Error(), with what
-- the generated code uses of the types.
pub record RestClient (P : Payloads) : Type 0 where
  pub empty_object : P.object
  pub empty_list : P.objects
  pub name_of : P.object → String
  pub into_object : Request P → P.object → P.object × Option Error
  pub into_list : Request P → P.objects → P.objects × Option Error
  pub watch_request : Request P → P.watching × Option Error
  pub error_of : Request P → Option Error

-- time.Duration(*opts.TimeoutSeconds) * time.Second, of 64 bits
unfoldable pub timeout_of : {Rest : Type 0} → ListOptions Rest → ℕ
timeout_of opts = elim opts.timeout_seconds [
  | none ↦ 0
  | some seconds ↦ (seconds * 1000000000) % 18446744073709551616
]

module _ {P : Payloads} where
  abbrev to_resource : Verb P → String → Request P
  to_resource verb resource = record {
    verb = verb;
    resource = resource;
    name = none;
    sub_resource = [];
    params = no_params;
    timeout = 0;
    body = no_body;
  }

  unfoldable pub list_of : String → ListOptions P.list_rest → Request P
  list_of resource opts = record (to_resource get resource) {
    params = list_params opts;
    timeout = timeout_of opts;
  }

  unfoldable pub watch_of : String → ListOptions P.list_rest → Request P
  watch_of resource opts = record (to_resource get resource) {
    params = list_params (record opts { watch = true });
    timeout = timeout_of opts;
  }

  unfoldable pub delete_collection_of :
      String → P.delete_options → ListOptions P.list_rest → Request P
  delete_collection_of resource options list_options = record (to_resource delete resource) {
    params = list_params list_options;
    timeout = timeout_of list_options;
    body = options_body options;
  }

-- A client of a kind: karydiaConfigs, karydiaNetworkPolicies.
module _ {P : Payloads} (client : RestClient P) (resource : String) where
  unfoldable pub get_named : String → P.get_options → P.object × Option Error
  get_named name options =
      client.into_object
        (record (to_resource get resource) { name = some name; params = get_params options })
        client.empty_object

  unfoldable pub list_all : ListOptions P.list_rest → P.objects × Option Error
  list_all opts = client.into_list (list_of resource opts) client.empty_list

  unfoldable pub watch_all : ListOptions P.list_rest → P.watching × Option Error
  watch_all opts = client.watch_request (watch_of resource opts)

  unfoldable pub create : P.object → P.object × Option Error
  create o =
      client.into_object (record (to_resource post resource) { body = object_body o })
        client.empty_object

  unfoldable pub update : P.object → P.object × Option Error
  update o =
      client.into_object
        (record (to_resource put resource) { name = some (client.name_of o); body = object_body o })
        client.empty_object

  unfoldable pub update_status : P.object → P.object × Option Error
  update_status o =
      client.into_object
        (record (to_resource put resource) {
          name = some (client.name_of o);
          sub_resource = "status" ∷ [];
          body = object_body o;
        })
        client.empty_object

  unfoldable pub delete_named : String → P.delete_options → Option Error
  delete_named name options =
      client.error_of
        (record (to_resource delete resource) { name = some name; body = options_body options })

  unfoldable pub delete_collection : P.delete_options → ListOptions P.list_rest → Option Error
  delete_collection options list_options =
      client.error_of (delete_collection_of resource options list_options)

  unfoldable pub patch_named :
      String → P.patch_type → P.data_bytes → List String → P.object × Option Error
  patch_named name pt bytes subresources =
      client.into_object
        (record (to_resource (patch pt) resource) {
          name = some name;
          sub_resource = subresources;
          body = data_body bytes;
        })
        client.empty_object
