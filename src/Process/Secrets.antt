-- ===== src/Process/Secrets.antt =====
-- What a child process reads from its environment.
use chatgpt_web_oauth_mcp.Prelude.{
  ◌≡◌, refl, ◌∙◌, Option, none, some, List, [], ◌∷◌, Text, text_eq_iff, elem, arith, if◌then◌else◌,
}
use chatgpt_web_oauth_mcp.Prelude.Dict.{Dict, get, remove, get-remove}
use chatgpt_web_oauth_mcp.Prelude.Dict.Merge.{or_else, last_value, get-merge}
use chatgpt_web_oauth_mcp.Process.{
  control_plane_secret_env_keys, drop_keys, overridden, sanitized_child_env,
}

drop_keys-get :
    (keys : List Text) (k : Text) (env : Dict Text)
    → get k (drop_keys keys env) ≡ (if elem k keys then none else get k env)
unfolding drop_keys elem
drop_keys-get [] k env = refl
drop_keys-get (key ∷ keys) k env =
    drop_keys-get keys k (remove key env)
    ∙ rw get-remove (ground (arith, text_eq_iff key k, text_eq_iff k key))

abbrev pub given : Option (Dict Text) → Dict Text
given none = []
given (some overrides) = overrides

overridden-get :
    (k : Text) (environ : Dict Text) (o : Option (Dict Text))
    → get k (overridden environ o) ≡ or_else (last_value k (given o)) (get k environ)
unfolding last_value
overridden-get k environ none = refl
overridden-get k environ (some overrides) = get-merge k environ overrides

-- A child process reads no secret of the control plane, also where the overrides hold one, and of
-- every other variable the last value of the overrides, or else that of the server.
pub sanitized_child_env-get :
    (k : Text) (environ : Dict Text) (overrides : Option (Dict Text))
    → get k (sanitized_child_env environ overrides) ≡ (
        if elem k control_plane_secret_env_keys
        then none
        else or_else (last_value k (given overrides)) (get k environ))
unfolding sanitized_child_env
sanitized_child_env-get k environ overrides =
    drop_keys-get control_plane_secret_env_keys k (overridden environ overrides)
    ∙ rw overridden-get refl
