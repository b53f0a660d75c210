-- ===== src/Agent/Registry/Fields.antt =====
-- What the fields of a project's table are when they are read without an error
-- (compose_registry.py).
use node_conductor.Base.{
  ℕ, suc, ◌≤◌, ◌≡◌, refl, sym, subst, ◌∙◌, ap, inl, inr, Bool, true, false, Option, none, some,
  List, [], ◌∷◌, arith, All, ◌&&◌, ◌||◌, ltb, ◌==◌, length, Bool-cases, Option-cases,
  some_injective, ==_iff,
}
use node_conductor.Agent.Gateway.{Chars, same_chars}
use node_conductor.Agent.Registry.{
  Toml, string, integer, negative, boolean, other, array, FileSystem, ComposeProjectDefinition,
  is_project_name, absolute_path, checked_path, resolved_directory, resolved_file, joined,
  resolved_files, has_duplicates, without_duplicates, checked_files, checked_timeout, checked_name,
  defined,
}

pub same_chars→eq : (a b : Chars) → same_chars a b ≡ true → a ≡ b
unfolding same_chars
same_chars→eq [] [] h = refl
same_chars→eq (x ∷ xs) (y ∷ ys) h = elim (Bool-cases (x == y)) [
  | inl e ↦ rw ((==_iff x y).0 e, same_chars→eq xs ys (ground arith)) refl
  | inr e ↦ absurd (ground arith)
]
same_chars→eq [] (y ∷ ys) h = absurd cc
same_chars→eq (x ∷ xs) [] h = absurd cc

module _ (fs : FileSystem) where
  checked_path-holds :
      (p : Chars → Bool) (o : Option Chars) (path : Chars)
      → checked_path fs p o ≡ some path
      → p path ≡ true
  checked_path-holds p none path h = absurd cc
  checked_path-holds p (some q) path h = elim (Bool-cases (p q)) [
    | inl e ↦ subst (λ r. p r ≡ true) (some_injective (rw e at h)) e
    | inr e ↦ absurd (ground arith)
  ]

  resolved_files-hold :
      (items : List (Option Chars)) (files : List Chars)
      → resolved_files fs items ≡ some files
      → All (λ f. fs.is_file f ≡ true) files × (length files ≡ length items)
  unfolding resolved_files resolved_file
  resolved_files-hold [] files h =
      subst (λ fs'. All (λ f. fs.is_file f ≡ true) fs' × (length fs' ≡ 0)) (some_injective h)
        (tt, refl)
  resolved_files-hold (none ∷ items) files h = absurd cc
  resolved_files-hold (some cs ∷ items) files h = elim (Option-cases (resolved_file fs cs)) [
    | inl e ↦ absurd (no_first (resolved_files fs items) (rw e at h))
    | inr (f, e) ↦ elim (Option-cases (resolved_files fs items)) [
      | inl e' ↦ absurd (no_rest f (rw (e, e') at h))
      | inr (more, e') ↦
          let (all, long) = resolved_files-hold items more e' in
          subst (λ fs'. All (λ g. fs.is_file g ≡ true) fs' × (length fs' ≡ suc (length items)))
            (some_injective (rw (e, e') at h))
            ((checked_path-holds fs.is_file (absolute_path fs cs) f e, all), ap suc long)
    ]
  ]
    where
      no_first : (o : Option (List Chars)) → joined fs none o ≡ some files → ⊥
      no_first none k = cc
      no_first (some x) k = cc

      no_rest : (f : Chars) → joined fs (some f) none ≡ some files → ⊥
      no_rest f k = cc

  pub all_defined :
      (n d : Option Chars) (f : Option (List Chars)) (t : Option ℕ) (p : ComposeProjectDefinition)
      → defined fs n d f t ≡ some p
      → (n ≡ some p.project_name)
        × (d ≡ some p.working_directory)
        × (f ≡ some p.compose_files)
        × (t ≡ some p.stop_timeout_seconds)
  all_defined (some n) (some d) (some f) (some t) p h =
      let same = some_injective h in
      (
        ap (λ (q : ComposeProjectDefinition). some q.project_name) same,
        ap (λ (q : ComposeProjectDefinition). some q.working_directory) same,
        ap (λ (q : ComposeProjectDefinition). some q.compose_files) same,
        ap (λ (q : ComposeProjectDefinition). some q.stop_timeout_seconds) same,
      )
  all_defined none d f t p h = absurd cc
  all_defined (some n) none f t p h = absurd cc
  all_defined (some n) (some d) none t p h = absurd cc
  all_defined (some n) (some d) (some f) none p h = absurd cc

  pub checked_name-own :
      (name cs : Chars) (v : Toml)
      → checked_name fs name v ≡ some cs
      → (cs ≡ name) × (is_project_name name ≡ true)
  checked_name-own name cs (string ds) h =
      elim (Bool-cases (same_chars ds name && is_project_name ds)) [
        | inl e ↦
            let same = same_chars→eq ds name (ground arith) in
            (
              sym (some_injective (rw e at h)) ∙ same,
              subst (λ z. is_project_name z ≡ true) same (ground arith),
            )
        | inr e ↦ absurd (ground arith)
      ]
  checked_name-own name cs (integer n) h = absurd cc
  checked_name-own name cs negative h = absurd cc
  checked_name-own name cs boolean h = absurd cc
  checked_name-own name cs other h = absurd cc
  checked_name-own name cs (array items) h = absurd cc

  without_duplicates-distinct :
      (o : Option (List Chars)) (files : List Chars)
      → without_duplicates fs o ≡ some files
      → (o ≡ some files) × (has_duplicates fs files ≡ false)
  without_duplicates-distinct none files h = absurd cc
  without_duplicates-distinct (some fs') files h = elim (Bool-cases (has_duplicates fs fs')) [
    | inl e ↦ absurd (ground arith)
    | inr e ↦
        let same = some_injective (rw e at h) in
        (ap some same, subst (λ z. has_duplicates fs z ≡ false) same e)
  ]

  pub record AreFiles (files : List Chars) : Type 0 where
    pub there : All (λ f. fs.is_file f ≡ true) files
    pub distinct : has_duplicates fs files ≡ false
    pub some_file : 1 ≤ length files
    pub few_files : length files ≤ 16

  pub checked_files-AreFiles :
      (v : Toml) (files : List Chars) → checked_files fs v ≡ some files → AreFiles files
  checked_files-AreFiles (array (i ∷ items)) files h =
      elim (Bool-cases (ltb 16 (length (i ∷ items)))) [
        | inl many ↦ absurd (ground arith)
        | inr few ↦
            let (e, distinct) =
              without_duplicates-distinct (resolved_files fs (i ∷ items)) files (rw few at h) in
            let (all, long) = resolved_files-hold (i ∷ items) files e in
            let at_most : length (i ∷ items) ≤ 16 = ground arith in
            record {
              there = all;
              distinct = distinct;
              some_file = omega (arith, long);
              few_files = omega (arith, long, at_most);
            }
      ]
  checked_files-AreFiles (array []) files h = absurd cc
  checked_files-AreFiles (string cs) files h = absurd cc
  checked_files-AreFiles (integer n) files h = absurd cc
  checked_files-AreFiles negative files h = absurd cc
  checked_files-AreFiles boolean files h = absurd cc
  checked_files-AreFiles other files h = absurd cc

  pub checked_timeout-bounds :
      (v : Toml) (t : ℕ) → checked_timeout fs v ≡ some t → (1 ≤ t) × (t ≤ 300)
  checked_timeout-bounds (integer n) t h = elim (Bool-cases (ltb n 1 || ltb 300 n)) [
    | inl bad ↦ absurd (ground arith)
    | inr good ↦
        let same = some_injective (rw good at h) in (ground (arith, same), ground (arith, same))
  ]
  checked_timeout-bounds (string cs) t h = absurd cc
  checked_timeout-bounds negative t h = absurd cc
  checked_timeout-bounds boolean t h = absurd cc
  checked_timeout-bounds other t h = absurd cc
  checked_timeout-bounds (array items) t h = absurd cc

  pub resolved_directory-there :
      (v : Toml) (path : Chars) → resolved_directory fs v ≡ some path → fs.is_dir path ≡ true
  unfolding resolved_directory
  resolved_directory-there (string cs) path h =
      checked_path-holds fs.is_dir (absolute_path fs cs) path h
  resolved_directory-there (integer n) path h = absurd cc
  resolved_directory-there negative path h = absurd cc
  resolved_directory-there boolean path h = absurd cc
  resolved_directory-there other path h = absurd cc
  resolved_directory-there (array items) path h = absurd cc
