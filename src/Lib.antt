-- ===== src/Lib.antt =====
-- Models and proofs for Mailhearth, a mail administration and webmail server for organisations on
-- top of hosted mail providers. Its core decides who may do what, keeps the organisation's state in
-- SQLite, compiles mail filters for the servers, and holds a pool of IMAP connections for the mail
-- client in the browser. Nine parts of it are modelled here.
--
-- Access: roles and permissions. internal/model/model.go names the permissions and
-- internal/core/roles.go and internal/core/resource_guards.go test them. The tables roles, members
-- and audit_log are lists in a record (Access.Store: Db), and a SELECT is the first row that fits.
-- Access has the tests and `validatePermissions`, Access.Guards the guards (`active_member_permissions`
-- for activeMemberPermissions and so on), Access.Roles the operations `create_role`, `update_role`
-- and `delete_role`, and histories of them (`handle_all`). The other services call the same guards.
-- An operation returns an error or the new state; the id of a new row is an argument.
--
-- Sieve: the compiler of mail filters, internal/mailproto/sieve/compile.go, with the rule types of
-- internal/model/model.go. Text is a list of character codes. Sieve.Quote and Sieve.Multiline write
-- the two kinds of strings and read them back, Sieve.Patterns has the four regular expressions,
-- Sieve.Rules has `condition` and `action`, Sieve.Compile has `compile`. The compiler's map of
-- required extensions is the list of the calls of `require`, newest first. Sieve.Needs says, from
-- the rules alone, which extensions a script needs. Upper case is that of ASCII, which is all that
-- a size can hold; spaces are those of unicode.IsSpace.
--
-- Operations: the queue of operations on shared resources, internal/core/operations.go and
-- internal/core/operation_controls.go. Operations.Tables has the tables operations, operation_locks
-- and operation_steps, Operations.Queue the transaction of QueueOperation, Operations.Execute those of
-- StartOperations, executeOperation and completeLocalOperation, Operations.Control ControlOperation
-- for local operations, Operations.Permission the checks, which use the permissions of Access.
-- Operations.History puts them in any order: an event is one transaction, with the members and roles
-- of its moment, and `workers` are the operations that some worker has claimed. The payload's seal
-- and `requireFullAccessTx` are parameters; plans, which other kinds of operations reserve, result
-- bodies and times are left out.
--
-- Submissions: outgoing messages, internal/core/submissions.go. Submissions.Row is a row of the table
-- submissions, Submissions.Directory has the tables that say who may send, with CheckMailboxAccess of
-- internal/core/mailboxes.go, and Submissions.Permit the queries on them. Submissions.Reserve is
-- ReserveSubmission and CompleteSubmissionStaging, Submissions.Smtp is SubmitSMTP of
-- internal/mailproto/mailops/compose.go with the server's answers as arguments, Submissions.Execute is
-- the worker (executeSubmission, markSMTPSubmitting, cleanupSubmission) cut at the writes of the row,
-- and Submissions.History puts the worker, restarts, reconcileStaging and RetrySubmissionSentCopy in
-- any order for one message. Submissions.Dispatch is the loop that starts workers. The parsers of
-- mails and of UUIDs, the seal of the envelope and SHA-256 are parameters or their results
-- arguments; times and the listings are left out.
--
-- Capabilities: what the browser may offer to a member, internal/core/capabilities.go. Capabilities.State
-- has what ObjectCapabilities reads of the member, the connection and the mailbox, Capabilities.Compute
-- one function for each stage of its loop, `object_capabilities` is the whole, and
-- Capabilities.Offered says without the stages when an action can be used.
--
-- Members: who belongs to an organisation, internal/core/members.go. Members.Table has the table
-- members and the writes of one row, Members.Manage UpdateMember, TransferOwnership and DeleteMember,
-- Members.Status AcceptInvite and the two transactions of internal/core/member_status_operations.go
-- that prepare and commit a change of a status, for a member of no group,
-- with NormalizeEmail of internal/core/service.go and requireResourceAvailable of
-- internal/core/resource_guards.go, over the guards of Access. An operation takes two views: what it
-- reads before its transaction, and what the transaction finds. strings.ToLower and the parser of
-- net/mail are parameters, the keys that other operations hold are a list, the rows that name a
-- member are their count, and audit rows are left out. Members.Histories has histories of them:
-- an event is a transaction with the number of writes that have happened since its request read.
--
-- Sessions: who is signed in, internal/core/members.go from CreateSession to RevokeSessions.
-- Sessions.Table has the table sessions and the operations on it, by the hash of the token;
-- Sessions.History puts them in any order and keeps a log of the logins and logouts beside the table.
-- Which members are active at a moment is an argument. Moments are nanoseconds and what the table
-- stores are seconds.
--
-- Secrets: internal/secrets/secrets.go. Secrets.Base64 is Go's base64.RawStdEncoding, Secrets.Box has
-- Seal and Open over any cipher, Secrets.Password HashPassword and VerifyPassword over any key
-- derivation, with strings.Split and the fmt.Sscanf of the parameters, and Secrets.Random is
-- RandomPassword. What the random source gives is an argument; for RandomPassword it is a list of
-- buffers, one for each turn of the loop, and `none` means that the loop goes on.
--
-- ImapPool: the connection pool, internal/mailproto/imappool/pool.go. ImapPool.State is the struct
-- `Pool` with `reserve` and `release`; connections and watchers live in a heap and are numbers.
-- ImapPool.Conns and ImapPool.Watch have one function for each critical section, that is, for what
-- the code does between locking and unlocking the pool's mutex. ImapPool.World puts the goroutines
-- beside the pool: a holder is a goroutine, connection or watcher that has a slot, and an event is
-- one critical section of one of them, so a list of events is an interleaving. The answers of the
-- network, of contexts and of the clock are in the events. The digest of a password is a parameter.
--
-- No function needs fuel: loops over lists are recursion on the list, the loop of RandomPassword is
-- recursion on what it reads, and the endless loops (`reserve` and the reaper of the pool, the loop
-- that starts workers) are events that may come again. Numbers are natural numbers; the
-- epochs and dial numbers of the pool wrap around at 2 ^ 64, and the days of an auto-reply are an
-- integer. Ids are not negative, as SQLite hands them out, and the lengths and counts stay far
-- below the bounds of `int`.
--
-- Not modelled: SQL, HTTP, IMAP, SMTP and ManageSieve themselves, the providers, the cryptography,
-- the web client, and so far the controls of remote operations, the invitation and creation of
-- members, the mailboxes' life cycle and routing.
mod Common
pub mod Access
pub mod Sieve
pub mod Operations
pub mod Capabilities
pub mod Submissions
pub mod Members
pub mod Sessions
pub mod Secrets
pub mod ImapPool
