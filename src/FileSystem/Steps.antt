-- ===== src/FileSystem/Steps.antt =====
-- What the steps on the files change, and what they leave.
use chatgpt_web_oauth_mcp.Prelude.{
  ◌≡◌, refl, ◌∙◌, sym, ap, false, Option, none, some, List, [], ◌∷◌, arith, All,
}
use chatgpt_web_oauth_mcp.FileSystem.{
  FilePath, Bytes, Node, file, directory, Files, OsError, Effect, continue, path_eq, path_eq_refl,
  make_dir, make_dirs, write_node, write_bytes, remove_node, unlink,
}

-- What a step leaves at a path, and so does what follows, the whole leaves there.
pub continue-at :
    (r : Files × Option OsError) (next : Effect) (q : FilePath) {x : Option Node}
    → r.0 q ≡ x
    → ((fs : Files) → fs q ≡ x → (next fs).0 q ≡ x)
    → (continue r next).0 q ≡ x
continue-at (fs, none) next q h k = k fs h
continue-at (fs, some e) next q h k = h

make_dir-at :
    (n : Option Node) (p q : FilePath) (fs : Files)
    → path_eq p q ≡ false
    → (make_dir n p fs).0 q ≡ fs q
unfolding make_dir
make_dir-at none p q fs h = rw h
make_dir-at (some directory) p q fs h = refl
make_dir-at (some (file raw)) p q fs h = refl

pub make_dirs-at :
    (ps : List FilePath) (q : FilePath) (fs : Files)
    → All (λ p. path_eq p q ≡ false) ps
    → (make_dirs ps fs).0 q ≡ fs q
unfolding make_dirs
make_dirs-at [] q fs h = refl
make_dirs-at (p ∷ ps) q fs h =
    continue-at (make_dir (fs p) p fs) (make_dirs ps) q (make_dir-at (fs p) p q fs h.0)
      λ fs' e. make_dirs-at ps q fs' h.1 ∙ e

pub write_bytes-at :
    (p q : FilePath) (raw : Bytes) (fs : Files)
    → path_eq p q ≡ false
    → (write_bytes p raw fs).0 q ≡ fs q
unfolding write_bytes
write_bytes-at p q raw fs h = ground arith

pub unlink-at : (p q : FilePath) (fs : Files) → path_eq p q ≡ false → (unlink p fs).0 q ≡ fs q
unfolding unlink
unlink-at p q fs h = ground arith

written :
    (n : Option Node) (p : FilePath) (raw : Bytes) (fs : Files) {fs' : Files}
    → write_node n p raw fs ≡ (fs', none)
    → fs' p ≡ some (file raw)
unfolding write_node
written none p raw fs h = ap (λ r. r.0 p) (sym h) ∙ rw path_eq_refl
written (some (file old)) p raw fs h = ap (λ r. r.0 p) (sym h) ∙ rw path_eq_refl
written (some directory) p raw fs h = cc

removed :
    (n : Option Node) (p : FilePath) (fs : Files) {fs' : Files}
    → remove_node n p fs ≡ (fs', none)
    → fs' p ≡ none
unfolding remove_node
removed none p fs h = cc
removed (some (file old)) p fs h = ap (λ r. r.0 p) (sym h) ∙ rw path_eq_refl
removed (some directory) p fs h = cc

-- A written file is there.
pub write_bytes_self :
    (p : FilePath) (raw : Bytes) (fs : Files) {fs' : Files}
    → write_bytes p raw fs ≡ (fs', none)
    → fs' p ≡ some (file raw)
unfolding write_bytes
write_bytes_self p raw fs h = written (fs p) p raw fs h

-- An unlinked path is free.
pub unlink_self :
    (p : FilePath) (fs : Files) {fs' : Files} → unlink p fs ≡ (fs', none) → fs' p ≡ none
unfolding unlink
unlink_self p fs h = removed (fs p) p fs h

-- The parts of two steps that raised nothing.
pub continue-none :
    (r : Files × Option OsError) (next : Effect) {fs' : Files}
    → continue r next ≡ (fs', none)
    → (fs : Files) × (r ≡ (fs, none)) × (next fs ≡ (fs', none))
continue-none (fs, none) next h = (fs, refl, h)
continue-none (fs, some e) next h = cc
