-- ===== src/FileSystem.antt =====
-- The file system as the tools see it, and pathing.py, session.py: a path is the list of its
-- resolved components, a file holds its bytes.
pub mod Pathing
pub mod Steps
use chatgpt_web_oauth_mcp.Prelude.{
  ℕ, ◌≡◌, ◌↔◌, Bool, true, false, ◌&&◌, Option, none, some, List, [], ◌∷◌, map, arith, Text,
  text_eq, text_eq_iff, text_eq_refl, if◌then◌else◌, Result, ok, err, ◌>>=◌,
}

abbrev pub FilePath : Type 0
FilePath = List Text

abbrev pub Bytes : Type 0
Bytes = List ℕ

unfoldable pub path_eq : FilePath → FilePath → Bool
path_eq [] [] = true
path_eq (c ∷ p) (d ∷ q) = text_eq c d && path_eq p q
path_eq [] (d ∷ q) = false
path_eq (c ∷ p) [] = false

pub path_eq_refl : (p : FilePath) → path_eq p p ≡ true
unfolding path_eq
path_eq_refl [] = ground arith
path_eq_refl (c ∷ p) = ground (arith, text_eq_refl c, path_eq_refl p)

path_eq_sound : (p q : FilePath) → path_eq p q ≡ true → p ≡ q
unfolding path_eq
path_eq_sound [] [] h = ground arith
path_eq_sound (c ∷ p) (d ∷ q) h = ground (arith, text_eq_iff c d, path_eq_sound p q)
path_eq_sound [] (d ∷ q) h = cc
path_eq_sound (c ∷ p) [] h = cc

pub path_eq_iff : (p q : FilePath) → (path_eq p q ≡ true) ↔ (p ≡ q)
path_eq_iff p q = (path_eq_sound p q, λ e. ground (arith, path_eq_refl p))

pub data Node : Type 0 where
  file : Bytes → Node
  directory : Node

abbrev pub Files : Type 0
Files = FilePath → Option Node

-- The files after one entry has changed.
abbrev pub update : Files → FilePath → Option Node → Files
update fs p n q = if path_eq p q then n else fs q

abbrev pub exists_at : Option Node → Bool
exists_at none = false
exists_at (some n) = true

abbrev pub is_file_at : Option Node → Bool
is_file_at (some (file raw)) = true
is_file_at _ = false

abbrev pub is_dir_at : Option Node → Bool
is_dir_at (some directory) = true
is_dir_at _ = false

-- What `write_text`, `unlink` and `mkdir` raise, all of them an `OSError`.
pub data OsError : Type 0 where
  is_a_directory not_a_directory not_found : OsError

-- The proper ancestors of a path, the root first.
abbrev pub ancestors : FilePath → List FilePath
ancestors [] = []
ancestors (c ∷ p) = [] ∷ map (◌∷◌ c) (ancestors p)

-- A step on the files: what it leaves, and the error that it raises.
abbrev pub Effect : Type 0
Effect = Files → Files × Option OsError

abbrev pub continue : Files × Option OsError → Effect → Files × Option OsError
continue (fs, none) next = next fs
continue (fs, some e) next = (fs, some e)

-- One step, and the next unless the first has raised.
abbrev pub and_then : Effect → Effect → Effect
and_then first next fs = continue (first fs) next

unfoldable pub make_dir : Option Node → FilePath → Effect
make_dir none p fs = (update fs p (some directory), none)
make_dir (some directory) p fs = (fs, none)
make_dir (some (file raw)) p fs = (fs, some not_a_directory)

-- `path.mkdir(parents=True, exist_ok=True)`, for the list of the directories to make.
unfoldable pub make_dirs : List FilePath → Effect
unfolding make_dir
make_dirs [] fs = (fs, none)
make_dirs (p ∷ ps) fs = continue (make_dir (fs p) p fs) (make_dirs ps)

unfoldable pub write_node : Option Node → FilePath → Bytes → Effect
write_node (some directory) p raw fs = (fs, some is_a_directory)
write_node _ p raw fs = (update fs p (some (file raw)), none)

-- `path.write_bytes(raw)`; the parent is there, since each caller makes it.
unfoldable pub write_bytes : FilePath → Bytes → Effect
unfolding write_node
write_bytes p raw fs = write_node (fs p) p raw fs

unfoldable pub remove_node : Option Node → FilePath → Effect
remove_node none p fs = (fs, some not_found)
remove_node (some directory) p fs = (fs, some is_a_directory)
remove_node (some (file raw)) p fs = (update fs p none, none)

-- `path.unlink()`
unfoldable pub unlink : FilePath → Effect
unfolding remove_node
unlink p fs = remove_node (fs p) p fs

-- The text codec of the Python runtime: `raw.decode("utf-8", errors="replace")` and
-- `text.encode("utf-8")`.
pub record Codec : Type 0 where
  pub decode : Bytes → Text
  pub encode : Text → Bytes
