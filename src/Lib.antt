-- ===== src/Lib.antt =====
-- Verification of the Tembo platform: how the operator decides the configuration and the
-- extensions of a Postgres instance, how the conductor applies the control plane's events, and
-- which hours the inference gateway reports for billing.
--
-- The parts and how they interact. A control plane puts events into a queue. The conductor
-- (conductor/) reads them one at a time, writes the resource of an instance into the cluster, and
-- answers through a second queue. The operator (tembo-operator/) reconciles the resource: from its
-- specification it computes the configuration of Postgres, and it compares the extensions that are
-- wanted with those that are there and switches what differs.
--
-- The files:
--   Prelude            the names and lemmas that the other modules share, with models of what the
--                      source uses of Rust's standard library: Result, Option, sorting, BTreeMap
--                      and BTreeSet as ordered lists, split, trim and join on texts.
--   Operator/Params    tembo-operator/src/apis/postgres_parameters.rs: values (ConfigValue,
--                      PgConfig), the merge of two layers (merge_pg_configs), the order of library
--                      lists, and how a configuration is read and written (Wire).
--   Operator/Types     the resource (CoreDB, CoreDBSpec, CoreDBStatus) and the extension types, of
--                      tembo-operator/src/apis/coredb_types.rs and extensions/types.rs; of the
--                      specification and the metadata the fields that the modelled code reads.
--   Operator/Spec      get_pg_configs and get_pg_config_by_name of coredb_types.rs. The map
--                      `requires_load` is an argument of theirs, as in the source.
--   Operator/Extensions  Status: the lookups of extensions/types.rs, and the merge of a location's
--                      status of extensions/kubernetes_queries.rs. Toggle: the decisions of
--                      extensions/toggle.rs; Toggle/Command: the command that switches an
--                      extension, of extensions/types.rs and database_queries.rs, with the
--                      language of the regular expression VALID_INPUT written out; Toggle/Run,
--                      WithLoad and Loop: the reconciliation of toggle.rs. Trunk: the lists of
--                      installed packages of extensions/kubernetes_queries.rs and install.rs. Install: the
--                      merge of the pods and install_extensions_to_pod of extensions/install.rs,
--                      with the updates of the status in the cluster.
--   Operator/Api       the cluster as the operator sees it: the resources it reads, the calls that
--                      change something, and what is answered. ClusterTypes: the cluster object of
--                      cloudnativepg/clusters.rs.
--   Operator/Patches   tembo-operator/src/cloudnativepg/cnpg_utils.rs and patch_cdb_status_merge of
--                      controller.rs. Stalled: removed_stalled_backups.
--   Operator/Hibernation  tembo-operator/src/cloudnativepg/hibernate.rs, with the deletion of
--                      routes of ingress.rs and the reads of cloudnativepg/cnpg.rs. Stopped, Lacks
--                      and Calls hold the proofs.
--   Operator/Cnpg      tembo-operator/src/cloudnativepg/cnpg.rs. Postgres: cnpg_postgres_config.
--                      Credentials and ObjectStore: backups and restores. Build:
--                      cnpg_cluster_from_cdb. Fencing and Unfence: the fenced pods. Reconcile:
--                      reconcile_cnpg. Schedule: scheduled backups and the pooler.
--   Operator/Retention tembo-operator/src/cloudnativepg/retention/snapshots.rs.
--   Operator/Controller  tembo-operator/src/controller.rs. Steps: the calls of a reconciliation.
--                      Ingress, Backups, Instance: CoreDB::reconcile, in the parts that its blank
--                      lines and comments mark. The file itself: reconcile, cleanup and
--                      error_policy. Requeue and Order hold the proofs.
--   Operator/Registry  tembo-operator/src/trunk.rs: the lookups in the registry; Libraries: the
--                      config map of the libraries (with apply_configmap of configmap.rs).
--                      Written holds the proofs.
--   Operator/AppService  tembo-operator/src/app_service. EnvVars and Environment: the environment
--                      of a container. Routes: what ingress.rs generates; Ingress: what it
--                      reconciles. Workload: the deployment, the service and the pod monitor.
--                      Resources: generate_resource and the annotations. Secret: the secret of the
--                      connections. Calls and Reconcile: reconcile_app_services.
--   Conductor          Types: messages, errors and environment. Round: a round of the loop as the
--                      list of the calls it makes and the way it ends: with a value, by `continue`,
--                      or by `?`. Cloud: init_cloud_perms and the two other initialisations, and
--                      include_storage_configuration. Events: the loop's body (`run` of
--                      conductor/src/main.rs), a function for each part of it. Environment: the
--                      checks with which `run` begins. Lacks, Closing, Handlers, Archives,
--                      Untouched, Recorded and Storage hold the proofs.
--                      Library: conductor/src/lib.rs, with Instance for the connection, the restart
--                      and the schedule; Aws: conductor/src/aws; Gcp: conductor/src/gcp.
--   Gateway            inference-gateway/src/events_reporter.rs: Reporter, the hours that are
--                      reported for billing (get_hourly_chunks, and the rounds of
--                      run_events_reporter with the failures that end one); Batches,
--                      split_events.
--   Stacks/Apps        merge_options and merge_pg_configs of tembo-stacks/src/apps/app.rs.
--
-- State. The source's `&mut` arguments are values passed on and returned. The conductor keeps no
-- state between rounds but in the queue, the database and the cluster, whose answers are a
-- parameter (World): a function for each call, so that an answer depends on what is asked. The
-- calls of conductor/src/lib.rs are among them. A number of attempts is taken not to be negative.
-- An installation has the status of the instance and the fenced pods as its state, and the API
-- server, the registry and the pod as a parameter (Calls): any of them may fail at any call.
--
-- An operation of the operator is the list of the calls it makes and a result (Prelude/Trace). The
-- answers are a parameter (World, Controller): one function for the calls that change something,
-- and one for each read. The clock is read once in a reconciliation, and a jitter is drawn once: the
-- random number generator is a parameter, which is given the bounds that the source gives it. A time is a number of nanoseconds since 1970; a cutoff before 1970 is 1970, which
-- no time is before, as in the source. Where the source unwraps a namespace that is missing, the
-- model has the requeue that the source has elsewhere; in Operator/AppService a panic is an outcome
-- of its own (panicked), to which a resource without a name leads where the source expects one, a
-- variable of the process that is not Unicode, and an index that is out of range. There a failure
-- does not end the reconciliation: the calls that are made, the reads among them, and whether one
-- has failed are an Attempts. The order in which a HashSet of ports is walked is a parameter
-- (Setting).
--
-- Loops are structural recursion on the lists they walk, but for two in Gateway, on fuel: the loop
-- over the hours has as many rounds as hours passed since 1970, and the split as many as there are
-- events. That is enough, since a round goes on by an hour, or takes an event at least. The digits
-- of a number have one round more than the number. Logging is left out.
-- `sort_by` of the library is a stable sort by insertion, which computes the same list.
--
-- Not modelled: the operator's reconcilers of network policies, roles, secrets and metrics,
-- which are steps of the controller; the queries of a database, the building of their Kubernetes
-- objects, the formulas of the stacks (floating point), the HTTP services, the command line
-- (tembo-cli) and the admission webhook (tembo-pod-init).
pub mod Conductor
pub mod Gateway
pub mod Operator
pub mod Prelude
pub mod Stacks
