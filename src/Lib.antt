-- ===== src/Lib.antt =====
-- A library about the v2ray operator: three Kubernetes controllers that keep v2ray servers, their
-- users and their clients in the state that resources ask for.
--
-- The parts, and the files that they come from:
-- - V2ray (internal/controller/v2ray_controller.go): the controller that keeps one deployment per
--   V2ray resource. V2ray.Reconcile has one function for each stretch of `Reconcile` between two of its
--   tests; V2ray.Image puts the deployment together (deploymentForV2ray, labelsForV2ray,
--   imageForV2ray).
-- - User (internal/controller/v2rayuser_controller.go): the controller that registers V2rayUser
--   resources. User.Elect is electServicesFromAffinity, User.Server reaches the server of a service,
--   User.Add is addUserToV2raySvcList, User.Finalize is doFinalizerOperationsForV2rayUser,
--   User.Rollback is the loop with a deferred rollback that these two share, User.Reconcile is
--   Reconcile, and User.Labels the two helpers that nothing calls.
-- - Client (internal/controller/v2rayclient_controller.go): the controller that applies the
--   configuration of V2rayClient resources. Client.Elect is ElectServicesFromAffinity and
--   SvcListToV2flyConfig, Client.Reconcile the rest.
-- - V2fly (internal/managers/v2fly): the client of a v2ray server's interface (apis.go, config.go)
--   and the structures of a configuration (structs.go). V2fly.Links holds the shared links of structs.go
--   and the subscription texts of utils.go.
-- - Operator (cmd/main.go): the three controllers in one process, their runs one after another as a
--   relation on the calls made, and the role that the markers above each Reconcile ask for.
--   Operator.Process is the process itself, from the init functions (those of api/v1alpha1 too) and
--   SetupWithManager of the controllers to the start of the manager and its exit codes.
-- - Managers (internal/managers/utils.go, internal/constant/vars.go).
-- - Api (api/v1alpha1): the resources, and the parts of the Kubernetes objects that the code reads.
-- - Copies (api/v1alpha1/zz_generated.deepcopy.go, and the deep copies of structs.go): the structs as
--   they lie in memory, with a module for each type that has DeepCopyInto, DeepCopy and perhaps
--   DeepCopyObject.
-- - Cluster: what the controllers call. Prelude: lists, integers, texts and maps. Tests: runs in a
--   small cluster.
--
-- How effects are modelled. A function that calls out is an action of Cluster.Effect: it takes the
-- calls made so far, the latest first, and gives back those made in the end with an outcome, which is a
-- value, an error that is returned, or a panic. The surroundings are a record Cluster.Env.Env with one
-- function for each kind of request, and the answer to a request may depend on every call made before.
-- A theorem about all such records therefore holds whatever other writers of the cluster do and whatever
-- fails; a theorem that needs more says so in a hypothesis. A write answers with the object as stored,
-- which then takes the place of the one in memory, as the client of controller-runtime does it. Time
-- limits show as errors of the requests that they cut off.
--
-- What the v2ray servers hold is no variable of the code. User.Registered reads it off the calls made
-- and their answers: a user is registered at a server for an inbound if the last addition or removal
-- that the server accepted is an addition. The theorems of its children say what registration and
-- finalizer do to that state. In the same way V2ray.Reconcile.Stored reads off what the API server stores
-- of a deployment: the answer to the last write of that name that it accepted.
--
-- Shared memory shows in Copies only. There memory is a list of cells, an address is a position in it,
-- and a cell holds a struct, the entries of a slice or those of a map. A field that is a pointer, a
-- slice or a map is an address or nil. A copy returns the struct that DeepCopyInto leaves in `*out`, and
-- what `make` and the loop after it fill is one new cell. The structs of Copies.Structs take the types
-- of such fields as parameters, so that the same record is a struct in memory and, with all that stands
-- behind its addresses, a value; a view reads the value, with nil and empty kept apart. DeepCopyInto of
-- ObjectMeta, ListMeta and Condition is a parameter, Copies.Machinery, and theorems suppose that it
-- copies deeply, as its documentation says. The controllers are modelled on values: a run reads copies
-- of its own, and writes nothing behind an address that a copy shares.
--
-- Other choices. A map is an association list in the order in which Go iterates, any order being
-- possible. `strings.ToLower` is modelled on ASCII letters. An `int` is the integer that it stands for,
-- and `uint32(x)` takes its low 32 bits; the source adds and subtracts nothing that comes near the
-- bounds of a machine word. Numbers are printed with as much fuel as the number plus one, which is
-- enough since each round divides by ten (Prelude.Text.Decimal reads them back). All other recursion is
-- on the structure of a list or a text. The entries of a node list are pointers in the source, which
-- electServicesFromAffinity and doFinalizerOperationsForV2rayUser dereference without a test. The schema
-- that the API server checks objects against (config/crd/bases/vpn.hdcjh.xyz_v2rayusers.yaml) takes
-- objects only, not null, so the controllers are modelled without nil entries; Copies has them as
-- pointers, nil included. The selector of a deployment is a pointer to User.Add, where it may be nil.
--
-- Not modelled: logging, and the parsing of flags, whose values are an argument. Whether the manager of
-- controller-runtime takes a step is a parameter of Operator.Process, and the kinds that client-go
-- registers are one of these steps. The struct T of structs.go has no use in the program. Encoding
-- to JSON, the v4 configuration, the finalizer and condition functions, the uuid and the environment
-- belong to other libraries and are fields of Env; base64 and the JSON of shared links are the parameter
-- Codec of V2fly.Links. A text stands for its bytes, and the texts of panics leave out the values that
-- the source prints into them.
pub mod Api
pub mod Client
pub mod Cluster
pub mod Copies
pub mod Managers
pub mod Operator
pub mod Prelude
pub mod Tests
pub mod User
pub mod V2fly
pub mod V2ray
