-- ===== src/Lib.antt =====
-- karydia watches a Kubernetes cluster with safe defaults. It has two halves. The webhook server is
-- asked by the API server about every pod and service account that is created or updated: its
-- mutating endpoint returns patches that add defaults, its validating endpoint denies objects that
-- lack them. The controllers keep a set of default network policies in every namespace and the
-- program's configuration up to date.
--
-- Which file models which part (paths from the repository's root):
-- - Common: Go's standard library where the program uses it. Text has strings.Split, strings.Replace
--   and fmt's %v of a slice; Decimal has strconv.Itoa; Pointer the tokens of JSON pointers; Dict map
--   reads and writes; Run results, errors and calls that may panic.
-- - Kube: the fields of Kubernetes objects that the program reads or writes; Kube.Review the
--   admission API and pkg/k8sutil/admission.go; Kube.Custom pkg/apis/karydia/v1alpha1/types.go, and
--   Kube.DeepCopy zz_generated.deepcopy.go of the same folder, over a memory with addresses. Elsewhere values
--   have no addresses, and a deep copy is the value itself.
-- - Admission.Types, Admission.Status, Admission.Handler: pkg/admission/karydia/admission.go, with
--   KarydiaAdmission as a record and Admit as `admit`. Admission.Pod: admission_pod.go of the same
--   folder. Admission.ServiceAccount: admission_service_account.go.
-- - Admission.Patch gives patch operations the meaning of RFC 6902's `add` on a pod, by its JSON
--   pointer, and Admission.Harden says with no patches what the hardened pod is;
--   Admission.AccountPatch does both for service accounts. The files under Admission.Harden,
--   Admission.Paths, Admission.Settings, Admission.Responses, Admission.Total, Admission.Accounts
--   and Admission.Terminating hold proofs.
-- - Webhook: pkg/webhook/webhook.go, the list of plugins and `admit`, with the request and the reply
--   of Serve in Webhook.Serve; Webhook.Verdict and Webhook.Answers the proofs.
-- - Server: pkg/server/server.go, the routes and the writer that records a status. Server.Status
--   proves what is logged, Server.EndToEnd follows a request through the server, the webhook and the
--   plugin, and Server.Make has New, ListenAndServe and Shutdown.
-- - Controller.Api: the calls of the clients and caches, and what a cluster that answers them
--   reliably does. Controller.Policies and Controller.Handlers:
--   pkg/controller/networkpolicy_reconciler.go, with the reconciler and the cluster as one state
--   that each function maps to the next. Controller.Policies has the buffer and one policy,
--   Controller.Handlers the removal and the two handlers; the files below them hold the proofs, from
--   one policy to a whole namespace.
-- - Controller.Config: pkg/controller/config_reconciler.go, with the controllers that it tells as
--   states of a type that is a parameter; Controller.Config.Follow and
--   Controller.Config.Recreate its proofs.
-- - Controller.Work: the event handlers and workers of both reconcilers, over the items that the
--   queue returns before it shuts down, with the calls of the queue as a list;
--   Controller.Work.Settled its proof.
-- - Controller.Lifecycle: Run of both reconcilers as a step relation, with their workers interleaved in
--   any order; its proofs are in Controller.Lifecycle.Accounts, Placed, Orderly and Drain.
-- - Runserver: cli/cmd/runserver.go from the flags to the goroutines, with pkg/util/tls/tls.go and
--   pkg/k8sutil/clientset.go. The admission plugin is one object that the webhook asks and the
--   configuration reconciler changes: both lists name it by its address, and the webhook asks the
--   object in the state that the controllers have given it. Runserver.Lifecycle has the goroutines,
--   signals, the shutdown and crashes of handlers as a step relation over those of the reconcilers,
--   with its proofs in Graceful and Ends. Runserver.Stock, Runserver.Ready and Runserver.Follows hold
--   the other proofs.
-- - Client.Informers: the factory of pkg/client/informers/externalversions and the informers of the
--   two kinds; Client.Loops and Client.Once the proofs. Client.Requests: the typed clients under
--   pkg/client/clientset/versioned/typed/karydia/v1alpha1, one definition for both kinds;
--   Client.Timeouts its proof. Client.Kinds: the clients of the two kinds. Client.Clientset: how the
--   clients of a configuration are made. Client.Listers: the listers under pkg/client/listers, one
--   definition for both kinds.
-- - Logger: pkg/logger/logger.go, with the calls of logrus that its methods make; Logger.Tagged its
--   proofs.
-- - Tests: the theorems at concrete inputs.
--
-- Conventions. A pointer is an Option, and reading through nil is the outcome `panics` of `Run`; an
-- error that is returned is a value with its text and the answer of errors.IsNotFound. An API call
-- is a field of a record (`Externals`, `Wire`, `Api`, `ConfigApi`, `Environment`, `KindCalls`,
-- `RestClient`, `ClientGo`); a call that changes the cluster returns the new cluster beside its
-- error. The specification of a network policy and the cluster are types that the model takes as
-- parameters. int32 and int64 are unbounded integers where the program only compares, prints and
-- copies them, which is exact; the timeouts of the clients, which are multiplied, have 64 bits. Maps
-- are association lists; Go's order of iteration, which is random, is the list's order, and no
-- property depends on which it is. Every loop is structural recursion over its list, so no fuel is
-- used.
--
-- Not modelled: what log lines write, which changes no state; the
-- queue's own order and delays: its Get returns any item at any time; what goroutines do to each other
-- through memory that no lock guards; the libraries
-- cobra and viper behind cli/cmd/root.go; the names of source files in the logger; set-up
-- and fakes among the generated code. Paths reach the server's routes as clean
-- paths, as net/http documents.
pub mod Client
pub mod Common
pub mod Kube
pub mod Admission
pub mod Webhook
pub mod Controller
pub mod Logger
pub mod Server
pub mod Runserver
pub mod Tests
