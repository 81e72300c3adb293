-- ===== src/Lib.antt =====
-- A model of the OpenRiak operator: the controllers that keep Riak clusters, users and buckets in
-- Kubernetes, and the riak-admin commands that they run in the pods.
--
-- What is done to the outside is a list of events, newest first (World: History). The answer to
-- each request (of the API server, of kubectl, of the clock) is any function of the events before
-- it (World: Api), so a theorem holds for every order of replies and failures. A call that may fail
-- is an `Exec`: it returns a result and the longer history. Library code outside the repository is
-- in the Api too: the conditions of api/meta and the finalizers of controllerutil are interfaces
-- with the laws that they document, strconv.Quote and encoding/json are functions.
--
-- Parts and files:
--   * Text: what is used of Go's strings and strconv, and that numbers printed are read back.
--   * Sorting: sort.Slice and sort.Strings by a name, and that names that differ are sorted in one way.
--   * Kube: Pods, StatefulSets, conditions and finalizers as far as they are read, and in Manifests the
--     objects that are written.
--   * Resources: api/v1, the custom resources as records.
--   * World: events, the Api, calls that may fail; Writes tells the reads from the writes.
--   * Riak/Executor: internal/riak/executor.go. Admin runs a command (ExecuteRiakAdmin,
--     riakAdminFailed), Members reads member-status and transfers, Permissions the tokens, the
--     targets and the print-grants table.
--   * Riak/Manager: internal/riak/manager.go. Membership is ReconcileMembership, Grants is
--     GrantUserPermissions, Commands the rest.
--   * Status: internal/controller/status.go.
--   * Rollout: internal/controller/rollout.go. Partition is rolloutNext and stsPartition, Settled is
--     clusterSettled, Reconcile is reconcileRollout. It asks Riak/Executor whether the ring is whole. Budget is
--     reconcilePodDisruptionBudget.
--   * Tls: internal/controller/tls.go. Trust: internal/controller/trust.go. Monitoring:
--     internal/controller/monitoring.go.
--   * Cluster: internal/controller/riakcluster_controller.go. Env, Pod, Workload and Service are the
--     objects, Certificate is reconcileTLSCertificate, Nodes, Refs and Status are updateClusterStatus,
--     and Reconcile puts the steps together: it calls Trust, Monitoring, Rollout and, by the status,
--     Riak/Manager.
--   * Metrics: internal/controller/metrics.go.
--   * Bucket: internal/controller/riakbucket_controller.go. Properties is effectiveBucketProperties.
--   * User: internal/controller/riakuser_controller.go. Status is failUser and markUserReady,
--     Deletion is deleteRiakUser, Certificate is reconcileUserCertificate and certRequeue.
--   * Examples: the interfaces filled by lists, a cluster, and the theorems there.
--
-- Bounds: sizes, ordinals, partitions and times are numbers from 0 up, as the CRDs and the API server
-- admit them; durations are nanoseconds. parse_int keeps the range of its bits. itoa runs on fuel
-- one above the number, which is enough since each step divides it by ten.
--
-- controllerutil.CreateOrUpdate is one event that carries the object its callback makes. The PEM and
-- X.509 packages are an interface (Trust/Pem: X509); the loop over the PEM blocks runs on fuel one above
-- the bytes of the text, which is enough since each block takes some. Strings compare by their bytes.
-- A float64 that counts is a number.
--
-- Not modelled: SetupWithManager, controllerOptions and the registration of the metrics, which wire the
-- operator to controller-runtime and Prometheus; the entry point, generated code, the scale tool, and
-- logging. reader() only chooses between two clients. The user controller takes
-- externalCertificateReadiness as an argument, which User/Reconcile/Issued fills by Trust/External.
mod Prelude
pub mod Text
pub mod Sorting
pub mod Kube
pub mod Resources
pub mod World
pub mod Riak
pub mod Tls
pub mod Trust
pub mod Status
pub mod Monitoring
pub mod Rollout
pub mod Cluster
pub mod Bucket
pub mod User
pub mod Metrics
pub mod Examples
