-- ===== src/Lib.antt =====
-- reactive-policy: a Kubernetes operator that watches a metric for each ReactivePolicy and runs a
-- pipeline of actions once the metric has been past its threshold for long enough.
--
-- The parts and how they interact. The policy reconciler (Controller/Policy, after Reconcile and
-- trigger of internal/controller/reactivepolicy_controller.go) goes through its gates, asks the
-- metric source, feeds the sliding window (Prometheus/Window, internal/prometheus/evaluator.go),
-- asks the rate limiter (Controller/Limiter, internal/controller/ratelimit.go) and has the executor
-- (Action/Executor, internal/action/executor.go) run the plugins that the registry holds
-- (Action/Registry, Action/Types). What ran is written down as an ActionAudit
-- (Controller/AuditWriter, internal/controller/auditwriter.go). A pipeline with an approval gate
-- stops there; the approval webhook (Webhook/Approval,
-- internal/webhook/v1alpha1/actionaudit_webhook.go) guards the verdict on the record, and the audit
-- reconciler (Controller/Audit, internal/controller/actionaudit_controller.go) releases or closes
-- the gate, reverts a record on request, and reclaims it after its retention. The validating
-- webhook (Webhook/Policy, internal/webhook/v1alpha1/reactivepolicy_webhook.go) decides which
-- policies get in. Plugins are the five of plugins/ (MeshShift, Isolate, Annotate, Suspend, Slack),
-- with internal/action/params.go, template.go and clientctx.go in Plugins/Kit, and Plugins/BuiltIn
-- for the registration that cmd/main.go brings about; Action/Permissions merges what they ask for,
-- after internal/action/rbac.go. Prometheus/Client is internal/prometheus/client.go. Cli is the
-- part of pkg/cli below its flags: the dry run of a policy, the verdict on a gate, the revert
-- request, the listing of audits, the tables (Cli/Tables) and the reports (Cli/Report). Api is
-- api/v1alpha1, Metrics is internal/metrics/metrics.go, Sink is internal/audit/sink/sink.go, with
-- the queue of internal/audit/sink/postgres/postgres.go in Sink/Postgres and the statements of its
-- pgxwriter.go in Sink/Postgres/Writer. Operator is cmd/auditsink.go and the permissions that
-- cmd/main.go declares. Examples applies the theorems to a small cluster.
--
-- How the code is modelled. Everything outside the repository, which is the API server, the clock,
-- Go's formatting, JSON and floating point, is a field of the record Platform and an argument of
-- the definitions; a call of it, and a plugin's, takes the outside state to an answer and the next
-- outside state, about which nothing is assumed, so other processes may act in between. The state
-- of the operator is Controller/System: the outside, the metrics, the window and the limiter's
-- cache. A reconcile is a function on it with every branch of the code, errors included. Times and
-- durations are integers of nanoseconds; the conversions to int32 and int64 and the saturation of
-- time.Sub are written out. What the plugins use of the Kubernetes client, of unstructured objects,
-- JSON, templates and HTTP is the records Client, Kit and Codecs in the same way, and what a
-- theorem needs of them is a named hypothesis that an example meets. A panic is an error of the
-- kind `panicked`. All loops run over lists and are structural, so there is no fuel.
--
-- Not modelled: the schema of the PostgreSQL sink, and the flags, the alignment and the JSON and
-- YAML output of the command line; the set-up of the manager; the deadline and the token of the
-- Prometheus client; log lines; mutexes, since a reconcile is one step. The metrics library is a
-- list of the updates that the code makes to it.
pub mod Common
pub mod Api
pub mod Metrics
pub mod Action
pub mod Plugins
pub mod Sink
pub mod Platform
pub mod Prometheus
pub mod Controller
pub mod Webhook
pub mod Cli
pub mod Operator
pub mod Examples
