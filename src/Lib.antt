-- ===== src/Lib.antt =====
-- A model of the OpenSearch Data Prepper operator for Kubernetes, with theorems on it.
--
-- The program. Users write three custom resources (api/v1alpha1): a DataPrepperClass holds defaults, a
-- DataPrepperCluster asks for a Data Prepper runtime, a DataPrepperPipeline defines one pipeline of a
-- cluster. The cluster controller (internal/controller/datapreppercluster_controller.go) creates and
-- updates the cluster's ConfigMaps, Deployment, Services, autoscaler and ServiceMonitor and writes its
-- status. The pipeline controller (internal/controller/dataprepperpipeline_controller.go) merges the
-- pipelines of a cluster into the ConfigMap that the cluster controller created, annotates the
-- Deployment with a hash of the content, so that its pods restart, and writes the pipeline's status.
-- Two admission webhooks (internal/webhook/v1alpha1) refuse resources that the controllers cannot
-- serve. The parts interact through the API server only.
--
-- The model. Common.antt and its children hold the shared helpers: Boolean tests, Go maps as
-- association lists (Common/Maps), permutations. Go.antt holds the functions of Go's standard library
-- that the sources call, written out: strings.TrimSpace, HasSuffix and TrimSuffix, the formats %d and
-- %q, SHA-256, and json.Unmarshal into a map of raw messages, of which it keeps the keys; flag.Parse
-- stands with the flags in Manager/CommandLine. Kube.antt holds the Kubernetes objects with the fields
-- that the operator reads or writes, Go's results, and in Kube/Client the handlers: a handler takes
-- the list of the calls made so far and returns a result and the longer list. The server is a
-- parameter: a record of functions that answer a call and may depend on all the calls before, so that
-- a theorem on every server is one on every state of the cluster and every interference of others. The
-- functions of apimachinery, controller-runtime and yaml that the sources call are the record
-- Machinery, a parameter too. What a theorem relies on of either is a named hypothesis: Marshals,
-- MarshalsEntries, ConditionLaws (Kube/Conditions), IsKeyed, KeepsMetadata, AddsOwner, AddsFinalizer,
-- ComparesPorts, ComparesSelectors, RefusesInverted, and IsQuiet, StoresFinalizers, HoldsObjects and
-- IsAccepting, by which the server's answers change by the operator's own writes only, and it takes
-- them all.
--
-- Api.antt: api/v1alpha1/*_types.go, with the field names in snake_case.
-- PipelineController.antt: dataprepperpipeline_controller.go. Render and Rebuild are
-- rebuildClusterConfig, Health is inspectClusterHealth, Status is setStatus, Reconcile is Reconcile,
-- Watches is findPipelinesForConfigMap and findPipelinesForCluster. Collect, Order, Listing (the
-- content), Effects (what a rebuild writes), Finalizer, Convergence (the status), Verdict (the
-- health), Reach (which objects a reconciliation writes), Traffic (how many calls it makes), InSync,
-- Events, and Quiet, Synced, Rebuilt and Repeated (a second reconciliation behind the first, in
-- Created a third) hold the proofs.
-- ClusterController.antt: datapreppercluster_controller.go. Config is resolveConfig and
-- mergeStringMap, ConfigMaps is reconcileConfigMap and reconcilePeerConfig, Deployments is
-- reconcileDeployment, Services is reconcileService and reconcileHeadlessService, Autoscaling is
-- reconcileHPA, Monitoring is reconcileServiceMonitor, Status is reconcileStatus, Reconcile is
-- Reconcile. Resolution, Rollout, Mounts, Stored and Autoscaled (the Deployment), Defaulting and
-- Contention (the Services), Mounted (the server configuration), Report and Counting (the status),
-- Shared (what both controllers write), Protocols (what the server fills in), InSync and Settling (an
-- idle pass), Calls and Scope (which calls a reconciliation makes), Traffic (how many) and Kept (what
-- it leaves there) hold the proofs.
-- Webhooks.antt: the two validators; in Agreement and Admission what they have to do with the
-- controllers, in Lifecycle the pipelines of a namespace as a sequence of requests leaves them, in
-- Race two requests side by side, in ClusterAdmission when a cluster is admitted, in Unsatisfiable an
-- admitted cluster whose autoscaler the server refuses.
-- Permissions.antt: the kubebuilder:rbac markers of both controllers, and in its children which calls
-- they grant.
-- Manager.antt: cmd/main.go. Flags and CommandLine are the flags and flag.Parse, Servers is the
-- options of the webhook server, the metrics server and the manager, Main is main, as a process that
-- makes the steps of the start-up and exits at the first that fails; Registration is what
-- SetupWithManager of both reconcilers and SetupDataPrepperClusterWebhookWithManager and
-- SetupDataPrepperPipelineWebhookWithManager register, as data with the handlers in it. RoundTrip,
-- Untouched and Defaults (the command line), Plan (the steps in their order), Protection (the
-- servers), Owned (which objects come back as events), Wakes (which pipelines an event reconciles),
-- Bootstrap (a pipeline behind its cluster), Traffic and Granted (the calls for a request) hold the
-- proofs. The answers to the steps, the environment and the flags that libraries register are the
-- record Environment, a parameter.
-- Tests.antt: a server, library functions and objects, and the theorems applied to them.
--
-- Conventions. Go integers are unbounded integers where the sources only compare or print them; the
-- one counter, the number of pipelines in a cluster's status, wraps around at 32 bits. Times are
-- natural numbers, and 0 is the zero time. Nil maps and slices are empty lists. A `continue` in a loop
-- returns the state as it was. Texts of errors are modelled as far as they are the operator's own.
-- Of what a server fills in on its own, the protocols of ports are stated where a theorem needs them
-- (ClusterController/Protocols and Defaulting).
--
-- Bounds. The parser of JSON runs on fuel: two units for each character of the text and two more,
-- since a bracket takes at most two units and every value at least one character (Go/Json/Fuel). It
-- has no limit on the depth of nesting, where Go's stops at 10,000. The printer of %d has fuel for 20
-- digits, more than a 64-bit integer has. Every other loop is recursion on a list.
--
-- Not modelled. Log lines and the logger, contexts, the scheme that init of cmd/main.go and of the API
-- types fills, how controller-runtime runs what is registered with it, generated code, test helpers
-- and tests.
pub mod Common
pub mod Go
pub mod Kube
pub mod Api
pub mod PipelineController
pub mod ClusterController
pub mod Webhooks
pub mod Permissions
pub mod Tests
pub mod Manager
