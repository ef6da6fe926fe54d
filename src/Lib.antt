-- ===== src/Lib.antt =====
-- A verification library for BreachScope, an incident analysis program in Python with a web service.
-- Its functions are translated into definitions by clauses, and theorems are proved about these.
--
-- Parts, with the files that model them and the code that they model:
-- - Prelude: numbers, texts, lists, dictionaries, JSON values and results, as the code uses them. A
--   dict is a list of entries in the order of insertion, an exception the `err` of a result.
-- - Schemas (breachscope/schemas.py): Event, Rule and Finding.
-- - Analyzer (breachscope/analyzer.py, breachscope/rule_field_compare.py): Texts has what is taken from
--   the interpreter and from the decoder, as the record Engine; FieldCompare the conditions that compare
--   two fields and the text of a field; Windows the identity of records and the pass over events 4688;
--   Matcher `_compile_rule_matcher` and `_rule_all_of_matches`; Rules
--   `apply_rules` and `apply_rules_parallel`, whose nested loops run through a list of attempts. The
--   proofs are in Deduplication, Chunks, Parallel and AnyOrder.
-- - Correlator (breachscope/correlator.py, and the identity of events of breachscope/utils.py, which differs
--   from that of the analyzer: a record_id counts only under System): Patterns what a
--   rule asks of events, Rules the events of the chains of a rule, with the two binary searches of the code,
--   Sessions identifiers and segments, Duplicates the removal of duplicate chains. It reads the events that
--   the analyzer reports on and takes the interpreter's part from the same record Engine.
-- - RuleActivation (api/services/rule_activation.py): the manifest file of active rules as a state that
--   `activate`, `deactivate` and `rollback` take and leave, and `load_active_rules`. Drafts and their
--   publications, the files, SHA-256 and the loader of rules enter by the record Authoring.
-- - RuleTuning (api/services/rule_tuning.py): the file of tuning profiles as a state that the three
--   methods that change it take and leave, and the two that read it. RuleIds has the choice of rules, Revisions
--   what a profile keeps, Keeping the sequences of requests, Store the map that the file stands for,
--   Concurrency two requests on one version, and ReadBack what a read gives after a change.
-- - AuditLog (api/services/audit_log.py): Sanitized what a record keeps of its details, which may hold paths and
--   other objects besides JSON values, Queries the query of
--   the lines of the log, which resolves the organization of a record by OrganizationScope.
-- - OrganizationScope (api/services/organization_scope.py): the identifiers of organizations.
-- - Scim (api/services/scim_groups.py, api/services/scim_directory.py): Records has the rows, Graph the
--   check of the membership graph, Payload and Patch the reading of requests on groups, Users the payloads,
--   PATCH and operations of users, Groups the operations on groups and the deletion of a user, Identity the
--   role and organization that a user has by the own row and by groups. Each operation takes the directory and
--   gives its reply beside the directory that it leaves; identifiers and times are arguments. Organizations are
--   normalized by OrganizationScope, and the groups' check and the identity's look at the same graph.
-- - AuthRateLimit (api/services/auth_rate_limit.py): the file of login failures as a state, with the
--   clock as an argument, read twice where the code reads it twice.
-- - UploadPolicy (api/services/upload_policy.py): an upload as a function of what its source gives, which
--   takes the files of a directory and the budget of a request and leaves both.
-- - Rbac (api/rbac.py): the policies of organizations, the permissions of a role, and `require_roles`, to
--   which the identity of a request and the roles with accounts are arguments. It shares the known roles with Scim.
--
-- Loops are structural recursion on the list that they run through. Five have fuel: the search of
-- the membership graph, one more than the number of groups, which the theorem on its verdict shows
-- to be enough; the rounds that collect the groups of a user, one more than the number of groups,
-- which the theorem on these groups shows to be enough; the slices of a list of events, as many as
-- it has events, which the proof of the parallel analysis shows to be enough; the halvings of a
-- binary search, as many as the list has entries, which the lemma on its result shows to be enough;
-- and the digits of a number, as many as its value.
--
-- Not modelled: reading and writing of files and of the database (a state is what a read gives and
-- a write leaves); locks, since each operation that changes a file holds its lock throughout, and the
-- status of a login, which reads without it, is a step of its own after the failure that it follows;
-- the cancellation of an upload, which is no Exception and so leaves the part that is written, and
-- errors of the disk when a file is opened; regular
-- expressions, case folding and the other tables of the interpreter, which are arguments; the
-- decoder, which is an argument of the analyzer; list queries and discovery documents of SCIM, of
-- the correlator the findings and the float confidence of a chain, the texts of chains and remote
-- execution; and the remaining services, ingestion, reports, command line and scripts.
pub mod Prelude
pub mod Schemas
pub mod RuleActivation
pub mod RuleTuning
pub mod Correlator
pub mod AuditLog
pub mod OrganizationScope
pub mod Scim
pub mod AuthRateLimit
pub mod UploadPolicy
pub mod Rbac
pub mod Analyzer
