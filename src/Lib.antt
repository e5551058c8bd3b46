-- ===== src/Lib.antt =====
-- kcp-glbc, the global load balancer controller for kcp: a model of its core and the theorems about
-- it. The program watches ingresses and routes in a control plane, gives each a generated host, keeps a
-- DNS record and a certificate for that host, and publishes the records to Route 53.
--
-- The parts, in the order in which they use each other:
--   Prelude: shared names, texts, maps as association lists, errors as values, Go's integers.
--   Api: pkg/apis/kuadrant/v1/types.go, the records of the API, and the methods of an endpoint.
--   Metadata: pkg/_internal/metadata and pkg/_internal/slice: annotations, labels, finalizers.
--   Dns: pkg/dns. Publish and Record are dns_record.go and controller.go: `publishRecordToZones`,
--     `mergeStatuses`, `deleteRecord`, `reconcile`, `process`; Health is health_check_reconciler.go;
--     Provider is the interface of dns.go and health.go; Watcher is host_watcher.go with `Min` and `Max`
--     of pkg/_internal/util/math; Resolver is hostresolv.go.
--   Aws: pkg/dns/aws. Change is the change batch of dns.go, Health is health.go.
--   Traffic: pkg/traffic. Domain, Workload and Patches are traffic.go. Object is its `Interface`, a
--     record of methods `TrafficObject`, which Ingress/Object and Route/Object fill. Over any such
--     object: Dns is dns.go, Certificates is tls.go, with the metrics of vars.go in its Events, and Host
--     is host.go. Ingress, with Hosts (`ProcessCustomHosts`), Removal (`RemoveTLS`), Statuses
--     (`GetDNSTargets`) and Transform, is ingress.go; Route, with Hosts and Targets, is route.go. The
--     modules called Frame say which parts of an object an operation leaves alone.
--   Tls: pkg/tls/cert_manager.go, the client of cert-manager.
--   Domains: pkg/domains/domainverification and pkg/dns/verification.go.
--   Migration: pkg/migration/workload/migrate.go.
--   Reconciler: pkg/reconciler. The file itself, Retries, Keys and Draining are controller.go, the work
--     queue; Loop is `reconcile` of ingress/ingress_reconciler.go and route/route_reconciler.go, over
--     any traffic object, with the chain of DNS, host and certificate reconcilers in Loop/Chain; Ingress and
--     Route are the two controllers, with `process` and the shadow route; Ingress/Events and
--     Route/Events are the handlers that put objects into the queue; Secrets is `copySecret`.
--   Tests: the theorems at concrete inputs.
--
-- State is passed on: an operation takes the object that the code mutates and returns it, beside an
-- error as an `Option Error`. A panic is `none`. What lies outside the repository is a parameter: the
-- DNS provider, Route 53, the API server, cert-manager, DNS lookups, JSON, md5, clocks, deep equality
-- and sorting; where their calls change it, it is a world `W` that is passed on. A Go map is an
-- association list in the order in which a loop meets its entries, so a theorem about all lists speaks
-- of all orders. Where the program shares pointers, the model writes through: `is_shared` in Dns.Record and Removal's arrays say which places hold the same object, and the
-- loop over finalizers that removes them keeps what is left behind in the array.
-- Integers that the program does not let overflow are natural numbers; those that it parses are signed,
-- with the bounds of 64 bits in `atoi`, and the interval of a watcher wraps around in 64 bits. The
-- recursion of `IsDomainVerified` and of `HostMatches` has the length of the host and one more as fuel:
-- each step drops a label and its dot, so it ends before. A worker has rounds as fuel: six for each key
-- that waits are enough, since a key is retried five times. The delays
-- of a migration are nanoseconds in 64 bits, and each reading of the clock is a value of its own.
--
-- Not modelled: the set-up of informers, the route controller's handlers for certificates, secrets and
-- DNS records, the controllers of the migration, metrics servers, logging, the start of the program,
-- goroutines and locks, and generated code.
pub mod Prelude
pub mod Api
pub mod Metadata
pub mod Dns
pub mod Aws
pub mod Traffic
pub mod Domains
pub mod Migration
pub mod Reconciler
pub mod Tls
pub mod Tests
