-- ===== src/Worker/Config/Paths.antt =====
-- The bundle path of a valid configuration stays below the directory in which it is resolved.
use road_sim.Prelude.{
  &&-true, leb, ◌==◌, if◌then◌else◌, Bool-cases, length, is_empty, all, ℕ, ◌≡◌, refl, sym, ap, ◌∙◌,
  inl, inr, true, false, not, ◌&&◌, ◌||◌, List, [], ◌∷◌, ◌++◌,
}
use mathlib.Core.List.{append_assoc}
use road_sim.Worker.Config.{
  parts, is_dot, is_dot_dot, component_of, components_of, leading, components, is_normal,
  WorkerSessionConfig, max_bundle_path_bytes, config_is_valid,
}

-- How a system without links resolves a path: a directory is the list of the names that lead to it
-- from the root, the last one first.
unfoldable pub enter : List (List ℕ) → List ℕ → List (List ℕ)
enter directory part =
    if is_empty part || is_dot part
    then directory
    else if is_dot_dot part
    then parent directory
    else part ∷ directory
  where
    parent : List (List ℕ) → List (List ℕ)
    parent [] = []
    parent (name ∷ above) = above

unfoldable pub walk : List (List ℕ) → List (List ℕ) → List (List ℕ)
unfolding enter
walk directory [] = directory
walk directory (part ∷ rest) = walk (enter directory part) rest

-- A path that starts with the separator is resolved from the root.
unfoldable pub starting_at : List (List ℕ) → List ℕ → List (List ℕ)
starting_at directory [] = directory
starting_at directory (byte ∷ bytes) = if byte == 47 then [] else directory

unfoldable pub resolve : List (List ℕ) → List ℕ → List (List ℕ)
unfolding walk starting_at parts
resolve directory path = walk (starting_at directory path) (parts path)

walk-below :
    (directory rest : List (List ℕ))
    → all is_normal (components_of rest) ≡ true
    → (names : List (List ℕ)) × (walk directory rest ≡ names ++ directory)
unfolding walk enter components_of component_of
walk-below directory [] h = ([], refl)
walk-below directory (part ∷ rest) h = elim (Bool-cases (is_empty part || is_dot part)) [
  | inl e ↦ let (names, below) = walk-below directory rest (rw e at h) in (names, rw e below)
  | inr e ↦ elim (Bool-cases (is_dot_dot part)) [
    | inl f ↦ cc (rw (e, f) at h)
    | inr f ↦
        let (names, below) = walk-below (part ∷ directory) rest (rw (e, f) at h) in
        (names ++ part ∷ [], rw (e, f) (below ∙ sym (append_assoc names (part ∷ []) directory)))
  ]
]

parts-cons : (path : List ℕ) → (part : List ℕ) × (rest : List (List ℕ)) × (parts path ≡ part ∷ rest)
unfolding parts
parts-cons [] = ([], [], refl)
parts-cons (byte ∷ bytes) =
    let (part, rest, e) = parts-cons bytes in
    elim (Bool-cases (byte == 47)) [
      | inl f ↦ ([], parts bytes, rw f refl)
      | inr f ↦ (byte ∷ part, rest, rw (f, e) refl)
    ]

-- If all components of some parts are names, so is the first part, unless it is empty.
first_named :
    (name : List ℕ) (rest : List (List ℕ))
    → is_empty name ≡ false
    → all is_normal (leading (name ∷ rest) ++ components_of (name ∷ rest)) ≡ true
    → ((directory : List (List ℕ)) → enter directory name ≡ name ∷ directory)
      × (all is_normal (components_of rest) ≡ true)
unfolding components_of component_of leading enter
first_named name [] e h = elim (Bool-cases (is_dot name)) [
  | inl d ↦ cc (rw (e, d) at h)
  | inr d ↦ elim (Bool-cases (is_dot_dot name)) [
    | inl f ↦ cc (rw (e, d, f) at h)
    | inr f ↦ (λ directory. rw (e, d, f) refl, refl)
  ]
]
first_named name (next ∷ rest) e h = elim (Bool-cases (is_dot name)) [
  | inl d ↦ cc (rw (e, d) at h)
  | inr d ↦ elim (Bool-cases (is_dot_dot name)) [
    | inl f ↦ cc (rw (e, d, f) at h)
    | inr f ↦ (λ directory. rw (e, d, f) refl, rw (e, d, f) at h)
  ]
]

resolve-below :
    (path : List ℕ) (directory : List (List ℕ))
    → is_empty path ≡ false
    → all is_normal (components path) ≡ true
    → (name : List ℕ) × (names : List (List ℕ)) × (resolve directory path
        ≡ names ++ name ∷ directory)
unfolding components components_of leading parts resolve walk starting_at
resolve-below [] directory full h = cc
resolve-below (byte ∷ bytes) directory full h =
    let (part, rest, e) = parts-cons bytes in
    elim (Bool-cases (byte == 47)) [
      | inl f ↦ cc (rw (f, e) at h)
      | inr f ↦
          let (enters, normal_rest) = first_named (byte ∷ part) rest refl (rw (f, e) at h) in
          let (names, below) = walk-below ((byte ∷ part) ∷ directory) rest normal_rest in
          (byte ∷ part, names, rw (f, e) (ap (λ d. walk d rest) (enters directory) ∙ below))
    ]

-- The bundle path of a valid configuration, resolved in any directory, leads to a place below this
-- directory and not to the directory itself.
pub bundle_path-below :
    (config : WorkerSessionConfig) (directory : List (List ℕ))
    → config_is_valid config ≡ true
    → (name : List ℕ) × (names : List (List ℕ)) × (resolve directory config.bundle_path
        ≡ names ++ name ∷ directory)
unfolding config_is_valid
bundle_path-below config directory h =
    let (full, h1) = &&-true (not (is_empty config.bundle_path)) _ h in
    let (_, h2) = &&-true (leb (length config.bundle_path) max_bundle_path_bytes) _ h1 in
    let (_, names) = &&-true (leb 1 config.step_length_ms && leb config.step_length_ms 1000) _ h2 in
    resolve-below config.bundle_path directory (filled config.bundle_path full) names
  where
    filled : (path : List ℕ) → not (is_empty path) ≡ true → is_empty path ≡ false
    filled [] h = cc
    filled (x ∷ path) h = refl
