-- ===== src/Approvals/Tests.antt =====
-- Approvals on concrete requests.
use ai_team_toolhub.Base.{◌+◌, ◌≡◌, List, [], ◌∷◌, ◌++◌, map, none, some, ok, All}
use ai_team_toolhub.Text.{Text, codes}
use ai_team_toolhub.Audit.{State}
use ai_team_toolhub.Approvals.{Site}
use ai_team_toolhub.Approvals.Machine.{Change}
use ai_team_toolhub.Approvals.Named.{Request, create, approve, serve, serve-Change}
use ai_team_toolhub.Approvals.Lasting.{
  nothing, served, Sound, Distinct, subject, approvals_stay_Sound,
}

abbrev site : Site
site = record {
  policy = record {
    allowed_repos = [];
    allowed_tools = [];
    forbidden_path_prefixes = [];
    approval_path_prefixes = [];
  };
  get_run = λ id. ok (some (record { run_id = id; repo = codes "o/r"; purpose = [] }));
  audit = record {
    fault = λ n. none;
    uuid = λ n. (1000 + n) ∷ [];
    now = λ n. n;
    partial = λ n. [];
    digest = λ bytes. bytes;
    compact = λ bytes. ok bytes;
    base_dir = codes "/d";
  };
}

abbrev empty : State
empty = record {
  files = [];
  artifacts = [];
  tool_calls = [];
  steps = [];
  decisions = [];
  approvals = [];
  write_failures = 0;
  counted = [];
  ticks = 0;
}

-- An approval is asked for, and approved by "eve".
abbrev asked : Request
asked =
    create (codes "r")
      (ok (record { scope = codes "code_write"; paths = []; payload = ok (codes "{}") }))

abbrev decided : Request
decided = approve (codes "r") (1000 ∷ []) (ok (codes "eve"))

abbrev last : State
last = serve site decided (serve site asked empty)

serve-Change_example : Change (serve site asked empty).approvals last.approvals
serve-Change_example = serve-Change site decided (serve site asked empty)

approvals_stay_Sound_example :
    All Sound last.approvals
    × Distinct last.approvals
    × (new : List (Text × Text × Text)) × (map subject last.approvals ≡ new ++ [])
approvals_stay_Sound_example =
    approvals_stay_Sound site empty last (served (served nothing asked) decided) tt tt
