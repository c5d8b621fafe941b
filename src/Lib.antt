-- ===== src/Lib.antt =====
-- cold-harbour: redaction of personal data in jobs and log streams, with an audit ledger.
--
-- The sentinel masks the lines of a log with the same detectors by the policy that the control plane
-- gives it, hands lines that are too long to the control plane as jobs, and reports counters.
--
-- A worker takes jobs off a queue and runs each by its type. The redaction job loads the tenant's
-- policy, finds personal data in the text with the detectors, replaces it, and returns the text with
-- counts; without a policy it works in two windows with a checkpoint between them. What is done for a
-- tenant is appended to the tenant's hash chain in the audit ledger, which a verifier walks.
--
-- Files, and what they model:
--   Common             names of the library, Boolean tests, lists over native numbers, bytes, sorting,
--                      checks of finite tables, maps changed at a key
--   Detect/Span        internal/detect/detect.go and creditcard.go: Kind, Span
--   Detect/Select      internal/detect/detect.go: preferLonger. Disjoint: what it chooses lies apart;
--                      Cover: what it drops overlaps something longer
--   Detect/Regex       Go's regexp as far as the detectors need it: leftmost-first matching by
--                      backtracking, and FindAllStringIndex
--   Detect/Patterns    the nine patterns of detect.go, india.go, creditcard.go and ip.go
--   Detect/Checksum    internal/detect/india.go: digitsOnly, verhoeffOK, verhoeffCheck;
--                      creditcard.go: luhnOK. Dihedral: facts of the tables by running through them
--   Detect/Address     net.ParseIP as findIP calls it
--   Detect/Scan        the detectors table, regexSpans, findAadhaar, findPAN, findPhoneIN,
--                      findCreditCard, findIP and Scan
--   Detect/Apply       internal/detect/detect.go: Apply, partial, TokenFor. Pieces: a text cut at
--                      spans, the description that Apply and applySpans are compared with
--   Policy             internal/policy/policy.go: Doc, Default, Parse
--   Redact             internal/redact/redact.go: applySpans, token, applyClassWindow, RedactPII;
--                      runner.go: applyPolicy
--   Redact/Resume      internal/redact/runner.go: Runner.Run, with the checkpoint recorder of
--                      internal/runner/runner.go
--   Ledger             internal/ledger/ledger.go: EntryHash, Append (and AppendSQL, the same steps on
--                      another database handle); verify.go: Verify
--   Ledger/Json        internal/ledger/ledger.go: the values that canonicalPayload reads
--   Ledger/Merkle      internal/ledger/merkle.go: MerkleRoot, VerifyInclusionProof
--   Journal            internal/journal/history.go: the states of a job; journal.go: Record in PostgreSQL.
--                      Consistent: outputs belong to rows; Repeated: a job recorded again
--   Journal/Memory     internal/journal/journal.go: the journal in memory. Refines: both journals as one
--   Keys               internal/keys/keys.go: Prefix, Authenticate, Create, Revoke, with the unique
--                      columns of the table. Rows: what the table has after each; Life: a key from its
--                      creation to its revocation
--   Worker/Stores      internal/seal/keys.go and receipts.go: Destroy, Insert and Get; the stores the
--                      worker uses, and how calls fail. Runs: relations that sequences of calls keep;
--                      Grows: how the stores may change
--   Worker/Stream      internal/queue/stream.go: StreamID, ParseStreamID, String
--   Worker/Retries     internal/queue/dlq.go: settleScript, which Redis runs as one step, as settle calls
--                      it; the test of fail for the last try. Bounded: its tries; Orderly: the
--                      entries it leaves alone
--   Worker/Purge       internal/queue/purge.go: purger.run. Receipts: what a purge never does;
--                      Done: what it has done when it returns; Lawful: a purge in any such relation
--   Worker/Deps        what the worker takes from elsewhere; internal/queue/job.go; stream.go: parseJob;
--                      group.go: claimed, Hooks, jobInput
--   Worker/Memory      internal/queue/memhash.go: load, save, saveStep1; internal/seal/keys.go: Ensure, Load
--   Worker/Handle      internal/queue/group.go: dispatch, handle, finishJournaled, commitJob, openJobInput,
--                      deadLetterMissingTenant; dlq.go: fail, bury, settle; internal/events: Publish.
--                      Safe, Steps, Whole: what no run of handle does, by its parts; Ends: what
--                      it has done when it returns
--   Worker/Add         internal/queue/stream.go: Add; group.go: enqueue
--   Worker/System      the stream with its worker as a step relation: jobs are added, entries delivered as
--                      RunGroup delivers them, calls fail. Kept: what every run keeps
--   Sentinel/Handoff   cmd/sentinel/handoff.go: handle, applyFailPolicy, loop, post. Breaker: the states of
--                      the circuit breaker; Steps: the states it reaches
--   Sentinel/Mask      cmd/sentinel/mask.go: maskWith. Shown: what it may write
--   Sentinel/Window    cmd/sentinel/events.go: add, take, restore, flush. Conserved: its sums
--   Sentinel/Settings  cmd/sentinel/policy.go: loadInitial, poll, fetchPolicy, the cache. InForce: which
--                      policies come into force; Outage: what lasts without a control plane
--   Sentinel/Lines     cmd/sentinel/main.go: readLines. Whole: the lines of an input in pieces
--   Sentinel/Report    cmd/sentinel/scan.go: runScan, scanFile. Totals: what its numbers count
--   Api/Links          internal/api/delivery.go: createLink, openLink, parseExpiry, parseViews. Bounded:
--                      how often an output is shown
--   Examples           runs on concrete inputs
--
-- A Go string and a []byte are lists of bytes, given as numbers; a position is a number. A slice whose
-- bounds are out of order panics, which `Redact` gives as `none`. No number of the modelled code comes
-- near the bounds of its Go type: positions and counts are at most the length of a text in memory, and
-- the sums of the checksums are taken digit by digit.
--
-- Parameters: SHA-256, encoding/json, the print of a time and the JSONB column. The record
-- `Ledger.Platform` states what the ledger relies on: a digest has 32 bytes; Marshal has no error on a
-- value that Unmarshal gives, and Unmarshal reads it back; and the column keeps the value of a text that
-- Marshal wrote, unless it has a number -0, which numeric does not know. What Unmarshal refuses is appended
-- as it is, and nothing is assumed of it. The checkpoint's map is taken to give back the result that was saved.
--
-- Fuel: the loop of MerkleRoot runs on the number of leaves, since each turn leaves fewer hashes; that
-- the loop ends with one hash is part of the theorem on inclusion proofs. Matching of a pattern is by
-- recursion on the pattern and the text and has no fuel. A number of 64 bits is printed with at most
-- twenty digits, as many as the largest has.
--
-- Databases: an append is one transaction on the tenant's rows and head row, and an error rolls it back.
-- The tenant's head row is locked by the code for the length of the transaction, so that appends to one
-- ledger follow one another. Lost connections are not modelled.
--
-- Faults: in `Worker` each call on a store takes its end from a list that stands for the future: it works,
-- it fails before it has an effect, or it has its effect and its reply is lost. The worker stops at the
-- first error; a stop of the process between two calls leaves what an error of the second leaves. The
-- journal's Record is one transaction, of which an error leaves nothing; it is refused where a column does
-- not take a value (`columns_take`) or the tenant of a new row is not in `tenants` (`references_hold`). The
-- UUID of a job, the Ed25519 signature, the JSON of a result, the texts that are UUIDs, and what a
-- TIMESTAMPTZ column keeps of a time are parameters.
--
-- The worker takes one time per entry it handles. The AES-GCM seal of the worker is a function of the key
-- and the text, without its nonce. A runner is what it does to its checkpoint recorder and how it ends,
-- which depends on its input and the saved checkpoint; the tests' hooks are functions of a job's identifier.
--
-- The sentinel hands lines on from one goroutine, so that a call of handle and the turn of loop that
-- answers it are one step; what a timer does is a step of its own, and so are the two halves of flush. The
-- inner loop of loop runs on as much fuel as the limit of the breaker, and the theorem on handle shows it
-- to be enough. The answers of the control plane are a function of the number of the request.
--
-- RunGroup is modelled by the deliveries that it may make: any entry of the stream, at any time, as often as
-- it comes; a step handles it up to the first error. That two workers work on one entry at once, when one
-- of them is slow, is left out.
--
-- The delivery links are opened one at a time, since the code locks the row of a link for the length of
-- its transaction; a commit may be lost, or be written without an answer. `parseInstant`, the digest of a
-- token and what a time column keeps of a time are parameters.
--
-- Not modelled: the HTTP interface of the control plane but for the delivery links, and the command
-- line tools but for what is named above; input and output, logging, metrics and the user interface.
pub mod Common
pub mod Detect
pub mod Policy
pub mod Redact
pub mod Ledger
pub mod Journal
pub mod Keys
pub mod Sentinel
pub mod Worker
pub mod Api
mod Examples
