-- ===== src/Agent/Gateway/Labels.antt =====
-- The two labels of a member of a Compose project (docker_gateway.py).
use node_conductor.Base.{
  ℕ, ◌≤◌, ◌≡◌, ◌≢◌, refl, sym, subst, ◌∙◌, ap, inl, inr, Bool, true, false, Option, none, some, [],
  ◌∷◌, arith, All, ◌&&◌, not, if◌then◌else◌, length, is_some, Bool-cases, some_injective,
}
use node_conductor.Agent.Schema.{coherent}
use node_conductor.Agent.Gateway.{
  Chars, Value, str, other, Object, get, strip_left, strip_right, strip, is_unsafe, any_unsafe,
  is_empty, is_refused, safe_compose_label, LabelNames, classified, compose_metadata,
}

-- The last character is no white space.
unfoldable pub ends_bare : (ℕ → Bool) → Chars → Bool
ends_bare is_space [] = true
ends_bare is_space (c ∷ []) = not (is_space c)
ends_bare is_space (c ∷ d ∷ ds) = ends_bare is_space (d ∷ ds)

abbrev pub starts_bare : (ℕ → Bool) → Chars → Bool
starts_bare is_space [] = true
starts_bare is_space (c ∷ cs) = not (is_space c)

-- A label that may name a project or a service.
pub record IsLabel (is_space : ℕ → Bool) (cs : Chars) : Type 0 where
  pub nonempty : 1 ≤ length cs
  pub short : length cs ≤ 255
  pub characters : All (λ c. (32 ≤ c) × (c ≢ 47) × (c ≢ 92)) cs
  pub starts : starts_bare is_space cs ≡ true
  pub ends : ends_bare is_space cs ≡ true

safe_characters :
    (cs : Chars) → any_unsafe cs ≡ false → All (λ c. (32 ≤ c) × (c ≢ 47) × (c ≢ 92)) cs
unfolding any_unsafe
safe_characters [] h = tt
safe_characters (c ∷ cs) h = elim (Bool-cases (is_unsafe c)) [
  | inl bad ↦ absurd (ground arith)
  | inr fine ↦ (
    (ground arith, λ e. absurd (ground (arith, e)), λ e. absurd (ground (arith, e))),
    safe_characters cs (rw fine at h),
  )
]

module _ (is_space : ℕ → Bool) where
  left-starts : (cs : Chars) → starts_bare is_space (strip_left is_space cs) ≡ true
  unfolding strip_left
  left-starts [] = refl
  left-starts (c ∷ cs) = elim (Bool-cases (is_space c)) [
    | inl space ↦ rw space (left-starts cs)
    | inr bare ↦ rw (bare, bare) refl
  ]

  right-ends : (cs : Chars) → ends_bare is_space (strip_right is_space cs) ≡ true
  unfolding strip_right ends_bare
  right-ends [] = refl
  right-ends (c ∷ cs) = go (strip_right is_space cs) (right-ends cs)
    where
      go :
          (ds : Chars)
          → ends_bare is_space ds ≡ true
          → ends_bare is_space
              (elim ds [ [] ↦ if is_space c then [] else c ∷ [] | d ∷ es ↦ c ∷ d ∷ es ])
            ≡ true
      go [] h = elim (Bool-cases (is_space c)) [
        | inl space ↦ rw space refl
        | inr bare ↦ rw (bare, bare) refl
      ]
      go (d ∷ es) h = h

  right-starts :
      (cs : Chars)
      → starts_bare is_space cs ≡ true
      → starts_bare is_space (strip_right is_space cs) ≡ true
  unfolding strip_right
  right-starts [] h = refl
  right-starts (c ∷ cs) h = go (strip_right is_space cs)
    where
      go :
          (ds : Chars)
          → starts_bare is_space
              (elim ds [ [] ↦ if is_space c then [] else c ∷ [] | d ∷ es ↦ c ∷ d ∷ es ])
            ≡ true
      go [] = elim (Bool-cases (is_space c)) [
        | inl space ↦ absurd (ground arith)
        | inr bare ↦ rw (bare, bare) refl
      ]
      go (d ∷ es) = h

  accepted-IsLabel :
      (v : Option Value) (cs : Chars)
      → safe_compose_label is_space v ≡ some cs
      → IsLabel is_space cs
  unfolding safe_compose_label strip
  accepted-IsLabel none cs h = absurd cc
  accepted-IsLabel (some other) cs h = absurd cc
  accepted-IsLabel (some (str value)) cs h = elim (Bool-cases (is_refused (strip is_space value))) [
    | inl bad ↦ absurd (ground arith)
    | inr fine ↦
        let same : strip is_space value ≡ cs = some_injective (rw fine at h) in
        subst (IsLabel is_space) same (record {
          nonempty = long (strip is_space value) (ground arith);
          short = ground arith;
          characters = safe_characters (strip is_space value) (ground arith);
          starts = right-starts (strip_left is_space value) (left-starts value);
          ends = right-ends (strip_left is_space value);
        })
  ]
    where
      long : (ds : Chars) → is_empty ds ≡ false → 1 ≤ length ds
      long [] e = absurd cc
      long (d ∷ ds) e = omega arith

  -- A container that is classified as a coherent member of a project has both labels. The names
  -- that are given are texts of 1 to 255 characters, each a code point of at least 32 that is neither a
  -- slash (47) nor a backslash (92), and with no white space at either end.
  pub coherent-labels :
      (names : LabelNames) (labels : Option Object) (project service : Option Chars)
      → compose_metadata is_space names labels ≡ (coherent, project, service)
      → (p : Chars) × (s : Chars) × (project ≡ some p)
        × (service ≡ some s)
        × IsLabel is_space p
        × IsLabel is_space s
  unfolding compose_metadata
  coherent-labels names none project service h = absurd (ground (arith, ap (λ t. t.0) h))
  coherent-labels names (some labels) project service h =
      elim (Bool-cases
        (not (is_some (get names.project labels)) && not (is_some (get names.service labels)))) [
          | inl missing ↦ absurd (ground (arith, ap (λ t. t.0) (rw missing at h)))
          | inr present ↦
              let h' = rw present at h in
              let (p, s, e, f) = both _ _ _ (ap (λ t. t.0) h') in
              (
                p,
                s,
                sym (ap (λ t. t.1) h') ∙ e,
                sym (ap (λ t. t.2) h') ∙ f,
                accepted-IsLabel (get names.project labels) p e,
                accepted-IsLabel (get names.service labels) s f,
              )
        ]
    where
      both :
          (b : Bool) (p s : Option Chars)
          → classified b p s ≡ coherent
          → (p' : Chars) × (s' : Chars) × (p ≡ some p') × (s ≡ some s')
      both b (some p') (some s') e = (p', s', refl, refl)
      both b none s e = absurd cc
      both b (some p') none e = absurd cc
