-- ===== src/Lib.antt =====
-- A model of the core of chatgpt-web-oauth-mcp, an MCP server that gives a client guarded tools on
-- a workspace, with the theorems that say what its patch engine, its OAuth server, its response
-- budgets, the environment of its child processes, its commands and its manager of Codex runtimes
-- do.
--
-- The parts. A client registers at the OAuth server and is sent to a login page; a code that it is
-- then given is exchanged for an access token and a refresh token, and the access token opens the
-- tools. One of the tools applies patches: it parses the patch, plans the change of each operation
-- on the files as they are, and then applies the planned changes. Others run commands, one or a
-- batch, whose output is captured within bounds and cut to a budget of tokens, search files and
-- return pages of results, and bind names to threads of a Codex app server.
--
-- The files. `Prelude` holds the helpers that the parts share: texts as lists of code points,
-- results, Python's `dict` (`Prelude/Dict`), and `splitlines`, `split` and `join`
-- (`Prelude/Split`). `FileSystem` is the file system as a function from resolved paths to files and
-- directories, with the steps `mkdir`, `write` and `unlink` and the errors that they raise;
-- `FileSystem/Pathing` is src/chatgpt_web_oauth_mcp/pathing.py and
-- src/chatgpt_web_oauth_mcp/session.py.
--
-- `Patch` is src/chatgpt_web_oauth_mcp/patching.py. `Patch/Ops` has its dataclasses and errors,
-- `Patch/Parse` is `parse_patch` with its helpers, `Patch/Match` is `_find_sequence_matches` and
-- `_apply_hunk`, `Patch/Plan` is `_plan_add`, `_plan_delete` and `_plan_update`, and `Patch/Apply`
-- is `_apply_change` and `apply_patch`. A hunk list, a change list and a file are plain values; a
-- call takes the files and returns the files and how it ends: with a payload, with a `PatchError`,
-- or with an `OSError` that nothing catches.
--
-- `Oauth` is src/chatgpt_web_oauth_mcp/oauth.py. Its state is the file `oauth.json`, read as a
-- `Store` of four dictionaries (`Oauth/Store`). The methods of `OAuthManager` are `register_client`
-- (`Oauth/Register`), `authorize` (`Oauth/Authorize`), `exchange_code` (`Oauth/Exchange`),
-- `refresh_access_token` (`Oauth/Refresh`) and `verify_access_token` (`Oauth/Verify`); each takes
-- the file and returns its result or its exception with the file that it leaves. `Oauth/Urls` is
-- `_is_allowed_redirect_uri` and `_validated_public_base_url`. `Oauth/Calls` runs any sequence of
-- calls on one file.
--
-- `Budget` is src/chatgpt_web_oauth_mcp/response_budget.py, which tells a client how the response
-- of a tool stands to the limits in bytes and tokens: `resolve_token_budget`, `ResponseBudget` and
-- its `measure`, and `with_budget_metadata` with its two loops of five rounds. The token encoding may
-- refuse a text: its `ValueError` is the error `not_encodable` of `Measuring`, which every function
-- that measures passes on, in `Output`, `Command` and `Search` too, since nothing catches it.
-- `Budget/Ends` is how a computation that measures may end: with a value, or with the refusal of a
-- text that the encoding does refuse.
--
-- `Process` is src/chatgpt_web_oauth_mcp/process_env.py: `sanitized_child_env`, the environment
-- that the server gives to the processes which it starts.
--
-- `Output` and `Command` are the foreground half of src/chatgpt_web_oauth_mcp/shell.py.
-- `Output/Capture` is `_BoundedStreamCapture`, `Output/Units` is `_decode_utf8_units` and
-- `Output/JobText` is `_render_job_output` with `_job_output_stop_reason`, which serve the logs of
-- jobs. `Output/Shares` is `_allocate_stream_token_budgets`, `Output/Truncate` is
-- `_truncate_text_to_tokens`, and `Output/Render` is `_render_captured_output`, which uses both.
-- `Command` is `run_command`, which renders the captures of a process; `Command/Batch` is the part
-- of `run_commands` that runs a batch, in sequence or in parallel, `Command/Fit` is
-- `_fit_command_batch_to_budget`, and `Command/Commands` puts them together behind the guards.
--
-- `Codex` is the manager of src/chatgpt_web_oauth_mcp/codex_runtime/manager.py, whose members that
-- change are the record `Manager`. `Codex/Release` is `_release_thread_locked` with
-- `_sync_connection_generation`, `Codex/Capacity` is `_collect_expired_idle_locked` and
-- `_ensure_capacity_locked`, `Codex/Threads` is the checks of names and of what the app server says
-- of a thread, `Codex/Runtimes` is `_open_runtime`, `close_runtime`, `_request_slot`, `_touch` and
-- `_collect_expired_idle`, `Codex/Resume` is `_resume_runtime` and `_acquire_runtime`, and
-- `Codex/Calls` runs any sequence of calls; a request is two steps, so that other calls may come
-- between. A call takes the manager and returns its value or its error with the manager it leaves.
-- `_open_runtime` starts its thread without the lock: its argument `during` is what other threads do
-- to the manager meanwhile, and a call carries the requests, closings, collections and touches that
-- come there.
--
-- `Search` is the part of src/chatgpt_web_oauth_mcp/search.py that makes pages of results:
-- `_paginate` and `_PageCollector`, on offsets and limits that are not negative.
--
-- Bounds. The parser's loops run on a bound on rounds, the number of lines that are left; a parse
-- that ran out of it would end with `out_of_fuel`. The water filling of shares has a round for each
-- stream and one more, the binary search of a truncation a round for each character, and the
-- decoding of units a round for each byte; the theorems about them say that this is enough, and
-- `Ends` does not allow the error `out_of_rounds`. All other loops are structural.
--
-- Parameters. The text codec, `pathlib`, SHA-256, base 64, `urlencode` and `urlparse` are the
-- arguments `Codec`, `PathLib` and `Runtime` of the definitions, `int`, `json.dumps` and the token
-- encoding (`Counting`: none where it raises) those of `Budget`, and the operating system that runs a command (`System`: what its
-- pipes gave and how it ended) is an argument of `Command`. The order in which the threads of a
-- parallel batch are done is the argument `completed`. The Codex app server behind its adapter, the
-- store of the bindings and `pathlib` are the argument `World` of `Codex`, operations on a state of
-- theirs. The random tokens and the clock of a call of `Oauth` are its argument `Fresh`; no law is
-- asked of them but what a theorem names. The clock is read once in a call, where `exchange_code`
-- reads it three times.
--
-- Not modelled: the diff text, summaries and candidate lists of the payload of `apply_patch`; the
-- texts of the error messages; symbolic links; the login page and the metadata documents; the JSON
-- text of the store, its members of a wrong type, and the steps of its atomic write. Of the Codex
-- runtime, the protocol of the app server, the file of the store, the views and the semaphore of
-- requests are not modelled. But for a request and what comes while `_open_runtime` starts its
-- thread, a call is one step: what other threads do while the app server resumes a thread, lists its
-- threads or releases one is not interleaved. Of shell.py, the registry of
-- jobs and the termination of process trees are not modelled, and of search.py the runs of ripgrep
-- and the reading of its events. The other modules of the program run tmux and git, or shape
-- payloads, and are not modelled here.
pub mod Prelude
pub mod FileSystem
pub mod Patch
pub mod Oauth
pub mod Budget
pub mod Process
pub mod Output
pub mod Command
pub mod Codex
pub mod Search
