-- ===== src/Repair/Tests.antt =====
-- The repair loop on a concrete server.
use ai_team_toolhub.Base.{◌≡◌, refl, ◌⊎◌, Bool, false, [], ◌∷◌, none, some, ok, All}
use ai_team_toolhub.Base.Int.{pos, int_le}
use ai_team_toolhub.Text.{
  codes, is_empty, text_eq, trim_space, split, join, trim_prefix, has_suffix,
}
use ai_team_toolhub.FilePath.{clean, render, is_rooted, resolve_all, resolve}
use ai_team_toolhub.Policy.{
  Policy, builtin_forbidden_prefixes, check_tool, has_key, check_paths, canonicalize_path,
  matches_forbidden_prefix,
}
use ai_team_toolhub.Policy.Paths.{Clear}
use ai_team_toolhub.CodeOps.Tests.{willing, config, one_file, work_rooted}
use ai_team_toolhub.CodeOps.Effects.{WritesOnly}
use ai_team_toolhub.Qa.Tests.{local_runner, quiet}
use ai_team_toolhub.Repair.{Outside, Server, Run, Approval, Body, Job, check_request}
use ai_team_toolhub.Repair.Attempts.{loop_start, repair_loop}
use ai_team_toolhub.Repair.Attempts.Ends.{Ends, repair_loop-Ends}
use ai_team_toolhub.Repair.Handler.{handle_code_repair_loop, perform}
use ai_team_toolhub.Repair.Handler.Gate.{Refused, Gated, repair_loop-Gated}
use ai_team_toolhub.Repair.Handler.Writes.{repair_loop_writes_permitted}
use ai_team_toolhub.Repair.Handler.Events.{Flags}
use ai_team_toolhub.Repair.Handler.Order.{Outcome, repair_loop-Outcome}
use ai_team_toolhub.Repair.BranchPr.{BranchBody, handle_code_branch_pr}
use ai_team_toolhub.Repair.Rpc.{tool_code_repair_loop, tool_code_branch_pr_create}
use ai_team_toolhub.Repair.Rpc.Agrees.{SameWork, tool_code_repair_loop-SameWork}
use ai_team_toolhub.Repair.Rpc.Branch.{SameBranch, tool_code_branch_pr_create-SameBranch}

abbrev a_run : Run
a_run = record { run_id = codes "r1"; repo = codes "org/app"; purpose = codes "fix" }

abbrev approval : Approval
approval = record {
  approval_id = codes "a1";
  run_id = codes "r1";
  scope = codes "code_write";
  status = codes "approved";
  approver = some (codes "ann");
}

abbrev outside : Outside
outside = record {
  get_run = λ id. ok (some a_run);
  get_approval = λ id. ok (some approval);
  start_step = ok (codes "s1");
  code = willing;
  qa = λ i kind. quiet;
  slot = λ i kind. none;
  create_pull_request = λ pr. ok (codes "#7");
  record_call = λ b. ok (codes "t1");
  error_text = λ e. [];
  unicode_lower = λ c. c;
}

abbrev policy : Policy
policy = record {
  allowed_repos = codes "org/app" ∷ [];
  allowed_tools = codes "code.repair_loop" ∷ [];
  forbidden_path_prefixes = builtin_forbidden_prefixes;
  approval_path_prefixes = [];
}

abbrev server : Server
server = record {
  policy = policy;
  code = some config;
  qa = some local_runner;
  repair_max_iterations = pos 3;
}

abbrev body : Body
body = record {
  approval_id = codes "a1";
  base_branch = one_file.base_branch;
  head_branch = one_file.head_branch;
  commit_message = one_file.commit_message;
  pr_title = codes "Fix";
  pr_body = [];
  files = one_file.files;
  max_iterations = pos 0;
  dry_run = false;
}

abbrev job : Job
job = record { run = a_run; code = config; qa = local_runner; body = body; max_iterations = pos 3 }

accepted : check_request outside server (codes "r1") (ok body) ≡ ok job
unfolding check_request check_tool has_key text_eq int_le trim_space check_paths canonicalize_path
    clean render is_rooted resolve_all split resolve join trim_prefix matches_forbidden_prefix
    has_suffix
accepted = refl

repair_loop-Gated_example :
    Refused (handle_code_repair_loop outside server (codes "r1") (ok body))
    ⊎ ((j : Job) × (handle_code_repair_loop outside server (codes "r1") (ok body)
          ≡ perform outside j)
        × Gated outside server (codes "r1") (ok body) j)
repair_loop-Gated_example = repair_loop-Gated outside server (codes "r1") (ok body)

repair_loop_writes_permitted_example :
    All
      (WritesOnly (codes "/work") (Clear builtin_forbidden_prefixes))
      (handle_code_repair_loop outside server (codes "r1") (ok body)).actions
repair_loop_writes_permitted_example =
    repair_loop_writes_permitted outside server (codes "r1") (ok body) config (codes "/work") refl
      refl work_rooted

repair_loop-Outcome_example :
    (b c : Bool) × Outcome outside job b c
    × Flags b c (handle_code_repair_loop outside server (codes "r1") (ok body)).events
repair_loop-Outcome_example =
    repair_loop-Outcome outside server (codes "r1") (ok body) job (codes "s1") accepted refl

repair_loop-Ends_example :
    Ends outside local_runner 1 3 [] (repair_loop outside local_runner 1 3 loop_start)
repair_loop-Ends_example = repair_loop-Ends outside local_runner 3

abbrev branch_body : BranchBody
branch_body = record {
  approval_id = codes "a1";
  base_branch = one_file.base_branch;
  head_branch = one_file.head_branch;
  commit_message = one_file.commit_message;
  pr_title = codes "Fix";
  pr_body = [];
  files = one_file.files;
  dry_run = false;
}

-- The tools of the MCP server, asked the same.
present : is_empty (trim_space (codes "r1")) ≡ false
unfolding trim_space
present = refl

tool_code_repair_loop-SameWork_example :
    SameWork
      (tool_code_repair_loop outside server (ok (record { run_id = codes "r1"; body = body })))
      (handle_code_repair_loop outside server (codes "r1") (ok body))
tool_code_repair_loop-SameWork_example =
    tool_code_repair_loop-SameWork outside server (codes "r1") body present

tool_code_branch_pr_create-SameBranch_example :
    SameBranch
      (tool_code_branch_pr_create outside
        (λ n. [])
        server
        (ok (record { run_id = codes "r1"; body = branch_body })))
      (handle_code_branch_pr outside (λ n. []) server (codes "r1") (ok branch_body))
tool_code_branch_pr_create-SameBranch_example =
    tool_code_branch_pr_create-SameBranch outside (λ n. []) server (codes "r1") branch_body present
