-- ===== src/Audit/Tests.antt =====
-- The audit service on a concrete call.
use ai_team_toolhub.Base.{
  ℕ, ◌+◌, ◌≡◌, refl, sym, ap, ◌∙◌, false, [], ◌∷◌, ◌++◌, none, some, Result, ok, arith, ◌==◌,
  followed,
}
use ai_team_toolhub.Text.{Text, codes, text_eq, has_prefix, split, join, byte_len, rune_len}
use ai_team_toolhub.FilePath.{clean, is_rooted, resolve_all, resolve, backtrack, render}
use ai_team_toolhub.Audit.Stored.{OwnFiles}
use ai_team_toolhub.Policy.{Policy, check_tool, has_key}
use ai_team_toolhub.Audit.{ToolCall, State, Outside, attempt}
use ai_team_toolhub.Audit.Tables.{insert, insert_artifact, insert_tool_call, key_taken}
use ai_team_toolhub.Audit.Artifacts.{file_path, safe_path, save, save_at, copy, artifact_of, remove}
use ai_team_toolhub.Audit.Service.{
  RecordInput, record_call, save_json, save_counted, save_extras, insert_call, tool_call_of,
  replay_response, replay_response_with_request_check,
}
use ai_team_toolhub.Audit.Replay.{
  Calm, record_call-replay_response, record_call-replay_checked, same_request,
}

abbrev outside : Outside
outside = record {
  fault = λ n. none;
  uuid = λ n. (1000 + n) ∷ [];
  now = λ n. n;
  partial = λ n. [];
  digest = λ bytes. bytes;
  compact = λ bytes. ok bytes;
  base_dir = codes "/d";
}

abbrev policy : Policy
policy = record {
  allowed_repos = [];
  allowed_tools = codes "t" ∷ [];
  forbidden_path_prefixes = [];
  approval_path_prefixes = [];
}

abbrev input : RecordInput
input = record {
  run_id = codes "r";
  tool_name = codes "t";
  idem_key = some (codes "k");
  request = ok (codes "q");
  response = ok (codes "s");
  has_err = false;
  extra_artifacts = record { name = codes "x"; content_type = codes "y"; body = codes "z" } ∷ [];
}

abbrev start : State
start = record {
  files = [];
  artifacts = [];
  tool_calls = [];
  steps = [];
  decisions = [];
  approvals = [];
  write_failures = 0;
  counted = [];
  ticks = 0;
}

abbrev file_of : ℕ → Text
file_of n = codes "/d/r/" ++ (1000 + n) ∷ []

path_of : (n : ℕ) → file_path outside.base_dir (codes "r") (outside.uuid n) ≡ file_of n
unfolding file_path clean is_rooted split resolve_all resolve backtrack render join text_eq
    has_prefix
path_of n =
    let e1 : (1000 + n == 47) ≡ false = ground arith in
    let e2 : (1000 + n == 46) ≡ false = ground arith in rw (e1, e2) refl

safe_path_of : (n : ℕ) → safe_path outside.base_dir (codes "r") (outside.uuid n) ≡ ok (file_of n)
unfolding safe_path clean is_rooted split resolve_all resolve backtrack render join text_eq
    has_prefix
safe_path_of n =
    let e1 : (1000 + n == 47) ≡ false = ground arith in
    let e2 : (1000 + n == 46) ≡ false = ground arith in rw (e1, e2) refl

-- The last character.
abbrev last_of : ℕ → Text → ℕ
last_of c [] = c
last_of c (d ∷ t) = last_of d t

own_files : OwnFiles outside (codes "r")
own_files n m q =
    let e : file_of n ≡ file_of m = sym (path_of n) ∙ q ∙ path_of m in
    let same : 1000 + n ≡ 1000 + m = ap (last_of 0) e in omega (arith, same)

abbrev u : State
u = (record_call outside policy input start).1

abbrev tc : ToolCall
tc = record {
  tool_call_id = 1015 ∷ [];
  run_id = codes "r";
  tool_name = codes "t";
  idempotency_key = some (codes "k");
  status = codes "ok";
  request_artifact_id = some (1000 ∷ []);
  response_artifact_id = some (1005 ∷ []);
  evidence_hash = codes "qs";
  created_at = 15;
}

recorded : record_call outside policy input start ≡ (ok (tc, (1010 ∷ []) ∷ []), u)
unfolding record_call followed check_tool has_key text_eq save_json save_counted save attempt
    save_at copy insert_artifact insert artifact_of save_extras insert_call insert_tool_call
    key_taken file_path remove tool_call_of backtrack clean is_rooted render resolve resolve_all
    byte_len has_prefix join rune_len split
recorded = refl

calm : Calm outside (codes "r") u
calm = record { calm = λ n h. refl; plain = λ n. safe_path_of n ∙ ap (λ t. ok t) (sym (path_of n)) }

abbrev parse : Text → Result Text ℕ
parse bytes = ok 5

record_call-replay_response_example :
    (replay_response outside parse (codes "r") (codes "t") (codes "k") u).0 ≡ ok (some (tc, 5))
record_call-replay_response_example =
    record_call-replay_response outside parse input tc u policy start ((1010 ∷ []) ∷ []) (codes "k")
      (codes "s") 5 own_files recorded calm refl refl refl refl

-- The caller asks for something else now.
record_call-replay_checked_example :
    (replay_response_with_request_check outside
      (codes "r")
      (codes "t")
      (codes "k")
      (ok (codes "p"))
      parse
      u).0
    ≡ same_request outside parse input tc u (codes "q") (codes "p") 5
record_call-replay_checked_example =
    record_call-replay_checked outside parse input tc u policy start ((1010 ∷ []) ∷ []) (codes "k")
      (codes "s") (codes "q") 5 (ok (codes "p")) (codes "p") (codes "q") (codes "p") own_files
      recorded calm refl refl refl refl refl refl refl refl
