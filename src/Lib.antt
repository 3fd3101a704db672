-- ===== src/Lib.antt =====
-- The control plane of wpx: its durable store, internal/store, with the roles of internal/rbac and the
-- sites of internal/model that it validates, and the change of a site's domain and the deletion of a
-- site on the host, which must survive an interruption at any point
-- (internal/provision/domain_change.go and delete_site.go).
--
-- The program is a panel that manages websites on one host. The web server (internal/web) and the
-- worker (internal/worker) share one SQLite database through internal/store. A request checks who
-- asks, validates what is asked, changes rows in one transaction and, where the host has to do
-- something, inserts a job. The worker claims jobs in order, has a privileged broker carry them out,
-- and finishes them, which settles the rows that the request had reserved.
--
-- Files and what they are about:
--   Rbac          internal/rbac/rbac.go: roles, capabilities, presets.
--   Model         internal/model: SiteId (site_id.go, and the identifier patterns of site.go), Site
--                 (site.go, domain_change.go, php_version.go): the validations.
--   Stamp         the instants that the store writes as text, and their order as text.
--   Store/Rows, Store/Statements
--                 internal/store/migrations.go: the tables as lists of rows, and the statements that
--                 insert, update or delete them with the constraints, foreign keys and triggers of the
--                 schema.
--   Store/Users   internal/store/store.go: owner, accounts, access, names and passwords.
--   Store/Tokens  sessions (store.go) and login challenges (totp.go).
--   Store/SecondFactor
--                 internal/store/totp.go: enrolment, codes and recovery codes.
--   Store/Sites   internal/store/lifecycle.go, site_changes.go, php_version.go, and CreateSite and
--                 EnqueueCertificate of store.go: guards, requests and completions.
--   Store/Jobs    ClaimNextJob, RequeueInterruptedJobs and FinishJob of store.go, the last for the
--                 kinds of job whose effect is on the site itself.
--   Store/Backups internal/store/backup_schedules.go: EnqueueDueBackups, over the tables as far as it
--                 reads them.
--   Store/JobOrder
--                 the ordered queries over jobs.
--   Provision     internal/provision/domain_change.go: Attempt (calls of the host that may fail or be cut
--                 short), Vhosts (the two configuration files of a site) and DomainChange (ChangeDomain
--                 and its journal). Below it, Phases says what the host may look like in each state of
--                 the journal; Writing, Restoring, Rollback, Forward, Carrying and Crash have one lemma
--                 for each step, Database those behind the boundary, Runs the sequences of runs,
--                 Verdicts single runs by what they find.
--   Provision/Deletion
--                 internal/provision/delete_site.go and delete_site_identity.go, with RemoveSiteCron
--                 of cron.go, deleteSiteHostingLocked of hosting.go, removeSiteFTPAccess of
--                 hosting_ftp.go and reloadOrStopUnused of php_version.go: DeleteSite. Files, Names,
--                 Checks and Listing are what it reads and derives, Account, Cron, Hosting, Php and
--                 Steps what it changes. Removal, Lines, Quiet and Effects are about single changes,
--                 Stages about the states that go with a record, Stability about what steps leave of
--                 them; Stopping, Pools, Services, Erasing, Unlinking, Closing, Conclusion, Erasure,
--                 Crash and Runs have one lemma for each step, Series and Order the sequences of
--                 runs, Refusals, Flaws and Objections the runs that change nothing, Completion,
--                 Bound and Resumption the number of calls.
--   Alerts        internal/alerts/monitor.go, with the rows of internal/store/operator_alerts.go and the
--                 rules of internal/model/operator_alerts.go: Cycle (the numbers of the cycles), State,
--                 Settings, Monitor (send), Condition (condition and event). Rows and Once are about
--                 deliveries, Condition/Phases, Row, Course and History about the course of a condition.
--   Worker        the way of a domain change from internal/worker/site_changes.go over
--                 internal/broker/client.go and lifecycle.go to the host, and back through the end of
--                 RunOnce in internal/worker/worker.go into the store, where a job without an answer
--                 waits for another run; its Replies, Outcomes and Agreement join the theorems about the host with those about the store.
--   Tests         runs of the model at concrete inputs.
--   Text, Prelude runes and texts; lists as tables, results, and the names that all files share.
--
-- How state and operations correspond: a database is a record of lists, one for each table, in the
-- order of insertion. An operation takes the database and returns a new one or an error; an error
-- leaves the database as it was, as the rollback of its transaction does. Operations that work without
-- a transaction return the database on every branch. Statements that meet rows by a key are updates of
-- all the rows that meet it, so the uniqueness of a key is a hypothesis where it is needed, or follows
-- from the invariant. Names are those of the source, in snake case: CreateUser is create_user.
--
-- The domain change is a program over a host: every call of the host takes an answer from a list, which
-- says whether it succeeds, fails or ends the process, and whether it took effect all the same; where
-- the list ends the process ends. Statements hold for all lists. A host has the files of the site, what
-- Nginx has loaded of them, the database, its recovery copy and the journal of the job. Nobody but the
-- program writes these. Journals, requests and responses are read as they were written. Checks of
-- directories, handles and permissions are calls that only read; clearing the site's cache leaves the
-- database alone.
--
-- The deletion of a site is such a program too. Its host has the files as a list of paths, the two
-- directories of scheduled commands by name, the password file of FTP, the table of mounts, what runs
-- for the site, its account and the record of the job. Reads between which nothing changes are one
-- call, with the code's tests on what is read. A removal of a tree that is cut short may leave any
-- paths, and leaves the directory unless it leaves nothing; what has been told to stop may go on as
-- the answer says. The two statements that drop a database and its user may be cut short between
-- them. The wait for a PHP listener has 200 rounds, its ten seconds at a look every fifty
-- milliseconds. The digest, the decoding of stored credentials and the roots of the configuration are
-- arguments; the directory of the records is taken as prepared.
--
-- Alerts keep one table by its key. Every call about a row or a channel may fail, by an argument; the
-- clock of an evaluation and that of send are two instants. A message is known by its identity.
--
-- Arguments of the model, since they are not code of the repository: bcrypt, the digest of a token,
-- the parser of URLs, the rendering of a site's Nginx configuration, the cipher, the message
-- authentication codes, base32 and strings.ToUpper of the second factor, the clock and the random
-- source. Loops run over lists; a number below 2^64 is written with fuel for 20 digits, which is
-- enough.
--
-- Not modelled: the HTTP interface, the framing of the broker's protocol and the rest of what the
-- broker runs on the host, scheduled commands, Node services and FTP users but for what a deletion
-- removes of them, staging and restores, installation, the collection of samples and the transports
-- of alerts, DNS providers, the jobs on databases, hosting users and certificates by DNS beyond
-- what the site operations read of them, and of backups everything but the enqueueing of the
-- scheduled ones. The details of audit events are left out. Texts are lists of runes; keys and
-- identifiers are strings.
pub mod Prelude
pub mod Text
pub mod Stamp
pub mod Rbac
pub mod Model
pub mod Store
pub mod Alerts
pub mod Provision
pub mod Worker
pub mod Tests
