-- ===== src/Lib.antt =====
-- A verification library of TallerMecario, the backend of a multi-tenant workshop service: an HTTP API
-- and background workers on PostgreSQL. It models the parts that decide who may do what in which
-- workshop, how members of a workshop are administered, and how background jobs are delivered.
--
-- Shared:
--   Base (Base/Tests, Base/Results, Base/Lists): the libraries' names, Boolean tests, results with an
--   error, and lemmas on lists. Base/Steps: code on a state that throws, with the rules for what a step
--   meets (Steps/Meets) and for the facts that it keeps (Steps/Keeps).
--   Collections (Collections/Laws): src/platform/readonly-collections.ts. A set is the list of its
--   members and a map the list of its entries, both in the order of insertion.
--
-- Authz: authorization by permission code, src/authz.
--   Authz/Roles, Authz/Assignment: the role codes, the scopes and ROLE_ASSIGNMENT_PERMISSION.
--   Authz/Matrix: RBAC_MATRIX_V1 of src/authz/rbac-matrix.ts, all rows (Matrix/Rows), its queries and
--   the rows that seed `role_permissions` (Matrix/Laws, Matrix/Listing).
--   Authz/Grants: combinePermissionScopes of src/authz/permission-grants.ts and freezeGrant.
--   Authz/Authorize: src/authz/authorize.ts, from the grant rows of a membership to the decision on a
--   route (Authorize/Grouping, Authorize/Effective, Authorize/Decisions).
--   Authz/Tripwire: src/authz/resource-authorization.ts. The WeakMap of statuses is an explicit store; a
--   handle is its index, and an object that was not made by the module is a handle that no entry has.
--
-- Tenancy: which workshop a request works for.
--   Tenancy/Uuid, Tenancy/Selection: src/tenancy/tenant-selection.ts (parseCanonicalUuid,
--   parseTenantSelection, selectTenantCandidate). The uuid test of zod is a parameter.
--   Tenancy/Context: createTenantContext of src/tenancy/tenant-context.ts, on the functions of Authz.
--
-- Members: administration of memberships, src/memberships, on the tables that it uses.
--   Members/Store: the rows and the errors. Members/Tx: code on the open transaction of a request, and
--   in Tx/Meets the rules by which the commands are proved.
--   Members/Access: src/memberships/membership-access.ts.
--   Members/Triggers: the three statements that write, with the triggers of
--   drizzle/0013_s1_05_owner_lock_hierarchy.sql and the triggers and the CHECK of
--   drizzle/0016_s1_06_membership_state_machine.sql, and writeStatus.
--   Members/Roles: src/memberships/roles-service.ts. Members/Lifecycle:
--   src/memberships/lifecycle-service.ts.
--   Members/Requests: a command as one request, that commits, or rolls back unless its error is one
--   of the durable ones (finalizeTenantTransaction of src/api/tenant-request.ts).
--   The owner-set lock serializes the commands of a tenant, so a history is a list of requests; row
--   locks have no effect on the tables. Keys, ids and the audit row's generated id are as the database
--   gives them. The guards of the route in front of a command are not part of it.
--
-- Outbox: delivery of background jobs.
--   Outbox/Store, Outbox/Sql: the rows of `outbox_events` and the four functions through which the
--   worker reaches them (drizzle/0000_initial_schema.sql, drizzle/0003_outbox_worker.sql).
--   Outbox/Worker: src/worker/outbox-worker.ts, processClaimedJob and processPhasedJob. The handlers,
--   the clock, a COMMIT that fails and what other connections commit at each moment of a job
--   (before its transaction, in it behind the read, on the network, behind a ROLLBACK) are parameters;
--   a handler's writes, `processed` and COMMIT are one step. Errors of the connection before a job has
--   an outcome are left out. Worker/Cases is the induction principle of a job's ends.
--   Outbox/Publish: src/outbox/publish.ts.
--
-- Invitations: membership invitations, src/invitations.
--   Invitations/Store: the rows and the errors. Invitations/Token: src/invitations/token.ts, with the
--   hashes of node:crypto as parameters. Invitations/Statements: the statements on
--   membership_invitations with the trigger of drizzle/0009_s1_04_invitation_delivery_lease.sql, its
--   CHECKs and unique indexes, what they keep (Statements/Changes, Statements/Keys) and what an update
--   did (Statements/Effects).
--   Invitations/Request, Invitations/Create, Invitations/Revoke: createInvitation, listInvitations and
--   revokeInvitation of src/invitations/service.ts, with publishOutboxEvent of Outbox/Publish and the
--   decisions of Authz/Authorize.
--   Invitations/Users, Invitations/Joining, Invitations/Accept: acceptInvitation, in a transaction of
--   its own, with app.bootstrap_provision_user (Accept/Outcomes to Accept/Laws). Lock timeouts and a
--   COMMIT that fails are inputs, as are the instants of its statements.
--   Invitations/Requests: the commands as requests and their histories (Requests/Keeping,
--   Requests/History).
--   Invitations/Message, Invitations/Sender, Invitations/Leases, Invitations/Delivery: the snapshot and
--   the template of the email, the Resend client, the three lease functions of the database and the
--   worker's handler of src/invitations/email.ts. Database clocks are seconds, the monotonic clock of the
--   handler is milliseconds; what other connections commit between its read and its lease is a
--   parameter.
--
-- Wompi: the payment provider, src/integrations/wompi.
--   Wompi/Adapter: the request loop of adapter.ts; what each fetch gives is a parameter
--   (Adapter/Retries). Wompi/Instruments: assertNoRawPaymentInstrument of contracts.ts; its loop has as
--   many rounds as its value has values in it, which Instruments/Laws shows to be enough.
--   Wompi/Charges: outbox-handler.ts and the payment row of billing-repository.ts. Wompi/Webhooks:
--   webhook-processor.ts. The provider, the schemas and app.apply_wompi_payment_status are parameters.
--
-- Loops are structural recursion, the retries of Wompi/Adapter on the attempts that are left; only the
-- scan of Wompi/Instruments has fuel. Instants and counts are natural numbers.
-- Not modelled: the HTTP framework and its routes, the clients of Clerk and object storage, most of the
-- table declarations of src/db/schema.ts, the environment checks of src/invitations/config.ts, the
-- payloads and the webhook signatures of src/integrations/wompi, and for now media, onboarding,
-- customers, vehicles, receptions, privacy and identity synchronization.
pub mod Base
pub mod Collections
pub mod Authz
pub mod Members
pub mod Outbox
pub mod Tenancy
pub mod Invitations
pub mod Wompi
