-- ===== src/Agent/Registry/Allowed.antt =====
-- What a project that the registry hands out has (compose_registry.py).
use node_conductor.Base.{
  ◌≤◌, ◌≡◌, sym, subst, inl, inr, true, false, Option, none, some, List, [], ◌∷◌, arith, All, ◌||◌,
  not, length, Bool-cases, Option-cases, some_injective,
}
use node_conductor.Agent.Gateway.{Chars, same_chars}
use node_conductor.Agent.Registry.{
  Toml, ProjectTable, FileSystem, ComposeProjectDefinition, is_project_name, has_duplicates,
  parse_fields, parse_project, parsed_with, parse_projects, load_or_unavailable, look_up,
  get_project,
}
use node_conductor.Agent.Registry.Fields.{
  same_chars→eq, all_defined, checked_name-own, checked_files-AreFiles, checked_timeout-bounds,
  resolved_directory-there,
}

-- A project that may be run: its name has the form of one, its directory and its files are there,
-- one to sixteen files, no two the same, and a timeout from 1 to 300 seconds.
pub record IsAllowed (fs : FileSystem) (name : Chars) (d : ComposeProjectDefinition) : Type 0 where
  pub own_name : d.project_name ≡ name
  pub well_named : is_project_name name ≡ true
  pub directory : fs.is_dir d.working_directory ≡ true
  pub files : All (λ f. fs.is_file f ≡ true) d.compose_files
  pub some_file : 1 ≤ length d.compose_files
  pub few_files : length d.compose_files ≤ 16
  pub distinct : has_duplicates fs d.compose_files ≡ false
  pub some_time : 1 ≤ d.stop_timeout_seconds
  pub little_time : d.stop_timeout_seconds ≤ 300

module _ (fs : FileSystem) where
  parse_fields-IsAllowed :
      (name : Chars) (n d f t : Option Toml) (p : ComposeProjectDefinition)
      → parse_fields fs name n d f t ≡ some p
      → IsAllowed fs name p
  parse_fields-IsAllowed name (some n) (some d) (some f) (some t) p h =
      let (named, directory, files, timeout) = all_defined fs _ _ _ _ p h in
      let (own, formed) = checked_name-own fs name p.project_name n named in
      let are = checked_files-AreFiles fs f p.compose_files files in
      let (above, below) = checked_timeout-bounds fs t p.stop_timeout_seconds timeout in
      record {
        own_name = own;
        well_named = formed;
        directory = resolved_directory-there fs d p.working_directory directory;
        files = are.there;
        some_file = are.some_file;
        few_files = are.few_files;
        distinct = are.distinct;
        some_time = above;
        little_time = below;
      }
  parse_fields-IsAllowed name none d f t p h = absurd cc
  parse_fields-IsAllowed name (some n) none f t p h = absurd cc
  parse_fields-IsAllowed name (some n) (some d) none t p h = absurd cc
  parse_fields-IsAllowed name (some n) (some d) (some f) none p h = absurd cc

  parse_project-IsAllowed :
      (name : Chars) (t : ProjectTable) (p : ComposeProjectDefinition)
      → parse_project fs name t ≡ some p
      → IsAllowed fs name p
  unfolding parse_project
  parse_project-IsAllowed name t p h =
      elim (Bool-cases (not (is_project_name name) || t.has_more)) [
        | inl bad ↦ absurd (ground arith)
        | inr good ↦ parse_fields-IsAllowed name _ _ _ _ p (rw good at h)
      ]

  parse_projects-All :
      (ts : List (Chars × ProjectTable)) (ds : List (Chars × ComposeProjectDefinition))
      → parse_projects fs ts ≡ some ds
      → All (λ e. IsAllowed fs e.0 e.1) ds
  unfolding parse_projects
  parse_projects-All [] ds h = subst (All (λ e. IsAllowed fs e.0 e.1)) (some_injective h) tt
  parse_projects-All ((name, t) ∷ ts) ds h = elim (Option-cases (parse_project fs name t)) [
    | inl e ↦ absurd (none_first (parse_projects fs ts) (rw e at h))
    | inr (p, e) ↦ elim (Option-cases (parse_projects fs ts)) [
      | inl e' ↦ absurd (none_rest p (rw (e, e') at h))
      | inr (more, e') ↦
          subst (All (λ e. IsAllowed fs e.0 e.1)) (some_injective (rw (e, e') at h))
            (parse_project-IsAllowed name t p e, parse_projects-All ts more e')
    ]
  ]
    where
      none_first :
          (o : Option (List (Chars × ComposeProjectDefinition)))
          → parsed_with fs name none o ≡ some ds
          → ⊥
      none_first none k = cc
      none_first (some x) k = cc

      none_rest : (p : ComposeProjectDefinition) → parsed_with fs name (some p) none ≡ some ds → ⊥
      none_rest p k = cc

  look_up-IsAllowed :
      (name : Chars) (ds : List (Chars × ComposeProjectDefinition)) (p : ComposeProjectDefinition)
      → All (λ e. IsAllowed fs e.0 e.1) ds
      → look_up name ds ≡ some p
      → IsAllowed fs name p
  unfolding look_up
  look_up-IsAllowed name [] p a h = absurd cc
  look_up-IsAllowed name ((n, d) ∷ ds) p a h = elim (Bool-cases (same_chars name n)) [
    | inl e ↦
        subst (IsAllowed fs name) (some_injective (rw e at h))
          (subst (λ m. IsAllowed fs m d) (sym (same_chars→eq name n e)) a.0)
    | inr e ↦ look_up-IsAllowed name ds p a.1 (rw e at h)
  ]

  -- A project that the loaded registry hands out for a name is registered under that name, which
  -- has the form of a project's name; its directory and its one to sixteen different files are
  -- there, and its timeout is from 1 to 300 seconds. This holds whatever the file contains.
  pub registry-IsAllowed :
      (file : Option (List (Chars × ProjectTable))) (name : Chars) (p : ComposeProjectDefinition)
      → get_project name (load_or_unavailable fs file) ≡ some p
      → IsAllowed fs name p
  unfolding get_project load_or_unavailable
  registry-IsAllowed none name p h = absurd cc
  registry-IsAllowed (some tables) name p h = elim (Option-cases (parse_projects fs tables)) [
    | inl e ↦ absurd (ground arith)
    | inr (ds, e) ↦ look_up-IsAllowed name ds p (parse_projects-All tables ds e) (rw e at h)
  ]
