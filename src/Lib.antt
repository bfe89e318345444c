-- ===== src/Lib.antt =====
-- The BuilderHub build-operator: a Kubernetes operator that runs BuildKit daemons. A BuildkitBuilder
-- object asks for one daemon, either always on (mode "persistent") or scaled to zero after an idle
-- time (mode "sleepy"); a BuildkitBuilderTemplate holds the settings that several builders share.
--
-- Parts of the program, and the files that model them (paths from the repository's root):
--   api/v1alpha1/buildkitbuilder_types.go, buildkitbuilder_webhook.go
--     Builder (the records) and Builder/Webhook (`Default`, `validate` and the three reviews).
--   api/buildertemplate/v1alpha1/buildkitbuildertemplate_types.go, buildkitbuildertemplate_webhook.go
--     Template and Template/Webhook, in the same way.
--   internal/controller/buildkitbuilder_controller.go
--     Controller/Reconcile: `Reconcile`, `resolveSpec`, `reconcilePersistent`, `reconcileSleepy`;
--     Controller/Sleep: the replicas of a sleepy builder; Controller/Merge: `mergeSpec`;
--     Controller/Labels: `labelsForBuilder` with its expression for values; Controller/PodSpec:
--     `buildPodSpec`; Controller/Toml: the buildkitd.toml of `ensureBuildkitdConfigMap`;
--     Manager: `SetupWithManager`.
--   internal/controller/helpers.go
--     Controller/Objects: the services, the claim and the stateful set; Controller/Upsert: the
--     create-or-update calls; Controller/Endpoint: the endpoint and the node port;
--     Controller/Conditions and Controller/Status: the status; `reconcileDelete`.
--   internal/controller/ingress.go
--     Controller/Ingress: the route; Controller/Exposure: `reconcileExposure`.
--   internal/controller/tls.go
--     Controller/Tls: the certificate authority of a namespace and the certificate of a builder.
--   internal/controller/metadata.go
--     Controller/Metadata: keys of labels and annotations, and the names of the objects.
--   api/v1alpha1/zz_generated.deepcopy.go, api/buildertemplate/v1alpha1/zz_generated.deepcopy.go
--     Copies: the structures in memory and the heap; Copies/Builders and Copies/Templates: the
--     functions of the two files, put together from copies of pointers, slices, maps and structures.
--   cmd/main.go
--     Manager: scheme, flags and the start of the manager, over controller-runtime as the record
--     Platform.
--
-- How the parts interact: the webhooks are meant for the API server, before it stores a builder or
-- a template. The manager calls `Reconcile` with a key; it reads the builder and its template, merges
-- the template with the inline one, brings the config map, the services, the route with its
-- certificate, the claim and the stateful set to what the builder asks for, and writes the status.
--
-- State and errors. Everything outside the repository is a parameter: the record World (World.antt)
-- holds the API client, the clock, the event recorder and the crypto libraries over a state of its
-- own. A method of the reconciler is a function from that state to a result and a state
-- (Exec.antt); what was written before an error stays written. An error is a value of Error.antt
-- with the error that it wraps. World/Laws.antt states what theorems rely on: IsReliable is an API
-- server with one writer that finds no object invalid and keeps the fields that may not change,
-- such as the selector of a stateful set; IsOwning is `SetControllerReference`, and IsTrusted are the
-- certificate libraries. Memory is a cluster in memory in which all of these laws are proved, and Tests holds
-- runs of the model on it.
--
-- Data. Kube holds the Kubernetes types, with the fields that the source sets or reads. A Go map is
-- an association list, with distinct keys where a theorem says so; a nil pointer is `none`. An
-- int32 or int64 is an integer with its wrap-around written out where the source computes with it.
-- An instant is its nanoseconds since the epoch, and time.Duration saturates as `Sub` does. All
-- loops of the source run over a list, so all definitions are structurally recursive: there is no
-- fuel and no bound. Controller/Sleep/Cycle is the life of a sleepy builder as a step relation of
-- uses, time and reconciliations, and Controller/Reconcile/Lifecycle relates it to the code;
-- Controller/Reconcile/Again and Stuck are about requests one after the other.
--
-- Not modelled: logging of the controller, the registration of types and webhooks, the CRD and RBAC
-- manifests, the API server's validation and defaults, and the two helpers `ptr` and `randomSuffix`.
-- An API server that removes an object with its last finalizer is not assumed, so `reconcileDelete`
-- is modelled without a theorem on what is left. The text of RFC 3339 times, quantities and TOML is
-- not parsed by the source, and not here.
mod Prelude
pub mod Error
pub mod Exec
pub mod Kube
pub mod Template
pub mod Builder
pub mod World
pub mod Controller
pub mod Copies
pub mod Manager
mod Memory
mod Tests
