-- ===== src/Lib.antt =====
-- The verification library of ToolHub (toolhub/), a server through which agents change code, run
-- checks and open pull requests under a policy.
--
-- Base has the shared tests, lists and results, with Go's `int` in Base/Int. Text is the package
-- `strings` as far as the program uses it (a text is a list of code points, `codes "..."` a literal),
-- FilePath is `filepath.Clean`.
--
-- Policy models toolhub/internal/core/policy.go: NewPolicy and SetPathPolicy (`new_policy`,
-- `set_path_policy`), CheckRepo, CheckTool, CheckPaths, RequiresApproval. Its children are about the
-- allowlists (Policy/Allowlist), the merged prefixes (Policy/Prefixes), the canonical form of paths
-- (Policy/Canonical) and what CheckPaths lets through (Policy/Paths).
--
-- CodeOps models toolhub/internal/codeops/runner.go. CodeOps.antt has the validation and the plan of
-- commands; CodeOps/Exec has Execute and RollbackBranch as computations that append the actions they
-- perform (git, a folder, a file) to a log; how an action ends, `filepath.Abs` and `%q` are the
-- parameter `Outside`. CodeOps/Paths and CodeOps/Branches are about what is validated, CodeOps/Files
-- and CodeOps/Plan about plan and execution, CodeOps/Effects and CodeOps/Inside about what is written, and where.
--
-- Qa models toolhub/internal/qa: the command line (Qa/CommandLine, Qa/Quoting), the truncation of
-- output (Qa/Output), the runners' configuration (Qa/Runner) and their runs (Qa/Run, Qa/Run/Safety).
-- How a started process ends is a parameter. A run is given whether a slot of the semaphore was got.
--
-- Repair models handleCodeRepairLoop of toolhub/internal/http/server.go with
-- toolhub/internal/core/repair_loop.go: the checks before the first change (Repair.antt), the loop over
-- the iterations (Repair/Attempts), the rest of the handler (Repair/Handler). It calls Policy, CodeOps
-- and Qa as the code does; the database, the JSON decoder, the audit service and GitHub are the
-- parameter `Outside`. The calls of the audit service, of the runners and of the counters are the
-- events of the answer; an error of RecordDecision or FinishStep is only logged and has no effect here.
--
-- Repair/BranchPr models handleCodeBranchPR of the same file, which shares these checks and parameters.
-- Repair/Rpc models the tools toolCodeRepairLoop and toolCodeBranchPRCreate of
-- toolhub/internal/mcp/server.go, which repeat the handlers' work with checks and replies of their own:
-- the variables of the former in Repair/Rpc/Work, the rest in Repair/Rpc. Repair/Rpc/Checks, Loops, Agrees
-- and Branch, beside that, compare them with the handlers. The request that audit.Record stores, which in a
-- tool has the run's identifier, is not modelled in either.
--
-- Patches models toolhub/internal/core/patch.go, and ErrorMap toolhub/internal/core/error_map.go.
--
-- Issues models toolhub/internal/core/issue.go, batch_mode.go and batch_status.go, and Issues/Batch is
-- handleBatchCreateIssues of toolhub/internal/http/server.go: what is stored under a key, the digest
-- that makes the key and GitHub are the parameter `Outside` of that module.
--
-- Github models toolhub/internal/github/client.go: the token and doAPI (Github/Session), the calls that
-- ask once and the pages of files (Github/Calls), CreateIssue with its retries (Github/Retry). What HTTP,
-- JSON, the clock, the random numbers and the context do is the parameter `Remote`, which may depend on
-- the log of all that was done. Github/Tokens, Github/Pages, Github/Retry/Answers and Github/Retry/Waits
-- have the proofs. The methods hold one client, whose mutex makes the calls for a token sequential.
--
-- Audit models toolhub/internal/core/audit.go and artifact.go with the statements of
-- toolhub/internal/db/db.go. Its `State` is the tables (newest row first, with the primary keys and the
-- unique index that toolhub/internal/db/migrations declares) and the files of the artifacts; the n-th call
-- fails or not as the parameter `Outside` says. Audit/Tables has the statements, Audit/Artifacts the store
-- of files, Audit/Service Record and the replays, Audit/Steps approvals, steps and decisions; Audit/Keeps
-- and Audit/Frame say what the calls leave alone, Audit/Stored and Audit/Saved what a successful Save and
-- Record leave, Audit/Replay what is replayed.
--
-- Approvals models the handlers of approvals in toolhub/internal/http/server.go over Audit: the handlers
-- (Approvals.antt), what each does to the table (Approvals/Machine), the requests (Approvals/Named) and
-- what any sequence of them leaves true (Approvals/Lasting).
--
-- Migrations models ApplyMigrations of toolhub/internal/db/migrate.go: the versions and the scripts that
-- were committed, and calls of the database that fail as its parameter `Outside` says.
--
-- Mcp models handleConn, dispatch and handleToolCall of toolhub/internal/mcp/server.go: one connection as a
-- list of lines, over handlers of the tools that are a parameter, as each tool is a function of its
-- arguments and of what it shares with the others.
--
-- All recursion is structural; the loop over the iterations recurses on their number, which the server
-- limits, that of CreateIssue on the four attempts, that of ListPullRequestFiles on the ten pages. Error
-- texts stand as the data they are printed from.
--
-- Not modelled: the MCP server's listener and its other tools, the other HTTP handlers, NewClient with its private key,
-- telemetry's text format and the programs under toolhub/cmd.
pub mod Base
pub mod Text
pub mod FilePath
pub mod Policy
pub mod Patches
pub mod ErrorMap
pub mod CodeOps
pub mod Qa
pub mod Repair
pub mod Issues
pub mod Github
pub mod Migrations
pub mod Mcp
pub mod Audit
pub mod Approvals
