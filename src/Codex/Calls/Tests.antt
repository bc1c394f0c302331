-- ===== src/Codex/Calls/Tests.antt =====
-- Runs of the manager with room for one runtime.
use chatgpt_web_oauth_mcp.Prelude.{
  text_eq, text_eq, text_eq, ℕ, ◌<◌, ◌≡◌, refl, true, false, none, some, List, [], ◌∷◌, In, arith,
  Text, codes, ok,
}
use chatgpt_web_oauth_mcp.Prelude.Dict.{Dict, get}
use chatgpt_web_oauth_mcp.Codex.{workspace_write, detached, Binding, World, Settings, Manager}
use chatgpt_web_oauth_mcp.Codex.Release.{requests_of, release_thread_locked}
use chatgpt_web_oauth_mcp.Codex.Release.Spares.{Spared, release_thread_locked-Spared}
use chatgpt_web_oauth_mcp.Codex.Capacity.{ensure_capacity_locked}
use chatgpt_web_oauth_mcp.Codex.Capacity.Limit.{Holds, Sound}
use chatgpt_web_oauth_mcp.Codex.Capacity.Eviction.{HasRoom, ensure_capacity_locked-HasRoom}
use chatgpt_web_oauth_mcp.Codex.Calls.{Call, open_, begin_, collect_idle, end_, run, other, touched}
use chatgpt_web_oauth_mcp.Codex.Calls.Run.{run-Sound}

-- An app server that starts the thread `t`, confirms every release, and owns no thread itself.
abbrev one_server : World (Unit {0})
one_server = record {
  connection_generation = λ w. some 1;
  is_running = λ w. true;
  has_pending_operations = λ thread w. false;
  owns_thread = λ thread w. false;
  thread_start = λ cwd sandbox w. (
    ok (record {
      thread_id = some (codes "t");
      cwd = some cwd;
      sandbox_type = some (codes "workspaceWrite");
    }),
    w,
  );
  thread_resume = λ thread cwd sandbox w. (
    ok (record {
      thread_id = some thread;
      cwd = some cwd;
      sandbox_type = some (codes "workspaceWrite");
    }),
    w,
  );
  is_no_rollout = λ code. false;
  release_thread = λ thread w. (ok true, w);
  cleanup_abandoned_threads = λ w. (ok tt, w);
  save = λ bindings w. (ok tt, w);
  resolve = λ path. path;
  path_eq = λ p q. true;
  validate_cwd = λ path w. ok path;
}

abbrev one_runtime : Settings
one_runtime = record { max_runtimes = 1; idle_ttl_seconds = 100 }

abbrev old_binding : Binding
old_binding = record {
  runtime_id = codes "rt_1";
  thread_id = codes "t1";
  cwd = [];
  sandbox = workspace_write;
  name = none;
  created_at = 5;
  last_used_at = 5;
  status = detached;
  mcp_server_count = none;
}

-- A manager with a binding, and as many requests of it.
abbrev one_bound : Dict ℕ → Manager (Unit {0})
one_bound active = record {
  bindings = (codes "rt_1", old_binding) ∷ [];
  active_requests = active;
  pending_release = [];
  live_thread_ids = codes "t1" ∷ [];
  observed_generation = some 1;
  cleanup_error = none;
  persistence_warning = none;
  load_error = none;
  gc_stop = false;
  last_gc_at = none;
  gc_collected_total = 0;
  lru_evicted_total = 0;
  world = tt;
}

no_requests : (k : Text) → 0 < requests_of [] k → In k (codes "rt_1" ∷ [])
unfolding requests_of
no_requests k h = absurd (omega arith)

one_bound-Sound : Sound 1 (one_bound [])
one_bound-Sound = record {
  keyed = record { own = refl; distinct = ((λ r. r), tt) };
  bounded = omega arith;
  active = no_requests;
}

ensure_capacity_locked-HasRoom_example :
    Holds
      (λ ids t. HasRoom one_server one_runtime 1 1 t)
      (Sound 1)
      (ensure_capacity_locked one_server one_runtime 10 1 (one_bound []))
ensure_capacity_locked-HasRoom_example =
    ensure_capacity_locked-HasRoom one_server one_runtime 10 1 (one_bound []) one_bound-Sound

-- The detached binding makes room.
old_binding_is_evicted :
    (ensure_capacity_locked one_server one_runtime 10 1 (one_bound [])).1.bindings ≡ []
unfolding ensure_capacity_locked text_eq
old_binding_is_evicted = refl

-- A runtime is opened in its place, and is not collected while its request is in progress.
abbrev open_and_ask : List Call
open_and_ask =
    open_ (touched 10 (codes "rt_1") none ∷ []) 10 (codes "rt_2") [] workspace_write none
    ∷ other (begin_ (codes "rt_2") (codes "t"))
    ∷ other (collect_idle 500 false)
    ∷ other (end_ 600 (codes "rt_2"))
    ∷ []

run-Sound_example : Sound 1 (run one_server one_runtime open_and_ask (one_bound []))
run-Sound_example = run-Sound one_server one_runtime open_and_ask (one_bound []) one_bound-Sound

abbrev one_busy : Manager (Unit {0})
one_busy = one_bound ((codes "rt_1", 1) ∷ [])

is_there : get (codes "rt_1") one_busy.bindings ≡ some old_binding
unfolding get text_eq
is_there = refl

is_busy : 0 < requests_of one_busy.active_requests (codes "rt_1")
unfolding requests_of text_eq
is_busy = omega arith

release_thread_locked-Spared_example :
    Spared one_server (codes "t1") one_busy (release_thread_locked one_server (codes "t1") one_busy)
release_thread_locked-Spared_example =
    release_thread_locked-Spared one_server (codes "rt_1") one_busy {b = old_binding} is_there
      is_busy
