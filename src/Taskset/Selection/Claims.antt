-- ===== src/Taskset/Selection/Claims.antt =====
-- The owners of topologies after a split has claimed its own.
use qorl.Prelude.{
  String, ◌≡◌, refl, sym, ap, ◌∙◌, Bool, true, false, not, ◌||◌, Option, none, some, List, [], ◌∷◌,
  arith, if◌then◌else◌, ◌==◌, nat_eq, string_eq, some_of, contains, beq_self, Result, ok, ◌>>=◌,
  raise_if, or_raise, >>=-eq-ok, >>-eq-ok, Dict, lookup, set_default, lookup-set_default,
}
use qorl.Taskset.Schemas.{
  TaskRole, role_eq, TaskSet, TaskSelection, TemplateMetadata, TaskSetError, missing_template,
}
use qorl.Taskset.Selection.{
  TopologyOwner, benchmark, templates_of, is_foreign, overlap, claim_templates, claim_role,
}

-- The topologies of the templates.
unfoldable pub topologies : Dict TemplateMetadata → List String → Result TaskSetError (List String)
topologies metadata [] = ok []
topologies metadata (template_id ∷ templates) = do
  m ← or_raise (lookup template_id metadata) (missing_template template_id)
  rest ← topologies metadata templates
  ok (m.topology_sha256 ∷ rest)

-- The topologies of the queries that a split selects.
unfoldable pub split_topologies :
    Dict TaskSet → Option TaskSelection → Result TaskSetError (List String)
unfolding topologies
split_topologies task_sets none = ok []
split_topologies task_sets (some selection) = do
  task_set ← benchmark task_sets selection.benchmark_id
  templates ← templates_of task_set selection
  topologies task_set.tasks_metadata templates

-- The role that owns a topology.
abbrev pub owner_of : Dict TopologyOwner → String → Option TaskRole
owner_of owners k = elim (lookup k owners) [ none ↦ none | some owner ↦ some owner.role ]

abbrev pub or_role : Option TaskRole → Option TaskRole → Option TaskRole
or_role none o = o
or_role (some r) o = some r

-- The state of the owners after a split with these topologies.
unfoldable pub Claimed : TaskRole → Dict TopologyOwner → List String → Dict TopologyOwner → Type 0
Claimed role owners hashes owners' =
    (some_of (λ h. is_foreign role (lookup h owners)) hashes ≡ false)
    × ((k : String)
        → owner_of owners' k
          ≡ or_role (owner_of owners k) (if contains hashes k then some role else none))

owner_of-set_default :
    (h k : String) (owner : TopologyOwner) (owners : Dict TopologyOwner)
    → owner_of (set_default h owner owners) k
      ≡ or_role (owner_of owners k) (if h == k then some owner.role else none)
owner_of-set_default h k owner owners = ground (arith, lookup-set_default h k owner owners)

pub is_foreign-owner_of :
    (role : TaskRole) (owners : Dict TopologyOwner) (k : String)
    → is_foreign role (lookup k owners)
      ≡ elim (owner_of owners k) [ none ↦ false | some r ↦ not (r == role) ]
is_foreign-owner_of role owners k = ground arith

pub some_of-cong {ℓ} :
    {A : Type ℓ} (p q : A → Bool) (xs : List A)
    → ((x : A) → p x ≡ q x)
    → some_of p xs ≡ some_of q xs
some_of-cong p q [] same = refl
some_of-cong p q (x ∷ xs) same = rw (same x, some_of-cong p q xs same) refl

pub some_of-or {ℓ} :
    {A : Type ℓ} (p q : A → Bool) (xs : List A)
    → some_of (λ x. p x || q x) xs ≡ (some_of p xs || some_of q xs)
some_of-or p q [] = refl
some_of-or p q (x ∷ xs) = ground (arith, some_of-or p q xs)

-- A topology that the role claims is not foreign to it, and the others stay as they were.
role-not_foreign :
    (role : TaskRole) (o : Option TaskRole) (b : Bool)
    → elim (or_role o (if b then some role else none)) [ none ↦ false | some r ↦ not (r == role) ]
      ≡ elim o [ none ↦ false | some r ↦ not (r == role) ]
role-not_foreign role none true = rw (beq_self role) refl
role-not_foreign role none false = refl
role-not_foreign role (some r) b = refl

is_foreign-claimed :
    (role : TaskRole) (owners : Dict TopologyOwner) (t h k : String)
    → is_foreign role (lookup k (set_default h (record { role = role; template_id = t }) owners))
      ≡ is_foreign role (lookup k owners)
is_foreign-claimed role owners t h k =
    let owner : TopologyOwner = record { role = role; template_id = t } in
    is_foreign-owner_of role (set_default h owner owners) k
    ∙ ap (λ o. elim o [ none ↦ false | some r ↦ not (r == role) ])
        (owner_of-set_default h k owner owners)
    ∙ role-not_foreign role (owner_of owners k) (h == k)
    ∙ sym (is_foreign-owner_of role owners k)

or_role-twice :
    (role : TaskRole) (o : Option TaskRole) (a b : Bool)
    → or_role (or_role o (if a then some role else none)) (if b then some role else none)
      ≡ or_role o (if a || b then some role else none)
or_role-twice role o a b = ground arith

or_role-none : (o : Option TaskRole) → o ≡ or_role o none
or_role-none o = ground arith

pub or-false : (a b : Bool) → (a || b) ≡ false → (a ≡ false) × (b ≡ false)
or-false a b h = ground arith

unraised : (b : Bool) (e : TaskSetError) → raise_if b e ≡ ok tt → b ≡ false
unraised b e h = ground arith

claim_templates-Claimed :
    (role : TaskRole) (metadata : Dict TemplateMetadata) (owners owners' : Dict TopologyOwner)
    (templates : List String)
    → claim_templates role metadata owners templates ≡ ok owners'
    → (hashes : List String) × (topologies metadata templates ≡ ok hashes)
      × Claimed role owners hashes owners'
unfolding claim_templates topologies Claimed
claim_templates-Claimed role metadata owners owners' [] h =
    let same : owners ≡ owners' = cc in
    ([], refl, (refl, λ k. ap (λ x. owner_of x k) (sym same) ∙ or_role-none (owner_of owners k)))
claim_templates-Claimed role metadata owners owners' (t ∷ ts) h =
    let (m, found, h₁) = >>=-eq-ok (or_raise (lookup t metadata) (missing_template t)) _ h in
    let hash = m.topology_sha256 in
    let owner : TopologyOwner = record { role = role; template_id = t } in
    let (free, h₂) =
      >>-eq-ok
        (raise_if (is_foreign role (lookup hash owners)) (overlap role t (lookup hash owners))) _
        h₁ in
    let (hashes, listed, (unowned, owned)) =
      claim_templates-Claimed role metadata (set_default hash owner owners) owners' ts h₂ in
    let rest =
      sym (some_of-cong _ _ hashes (λ k. is_foreign-claimed role owners t hash k)) ∙ unowned in
    (
      hash ∷ hashes,
      rw (found, listed) refl,
      (
        rw (unraised _ _ free, rest) refl,
        λ k.
            owned k
            ∙ ap (λ o. or_role o (if contains hashes k then some role else none))
                (owner_of-set_default hash k owner owners)
            ∙ or_role-twice role (owner_of owners k) (hash == k) (contains hashes k),
      ),
    )

claim_templates-first :
    (role : TaskRole) (metadata : Dict TemplateMetadata) (owners : Dict TopologyOwner) (t : String)
    (ts : List String) (m : TemplateMetadata)
    → or_raise (lookup t metadata) (missing_template t) ≡ ok m
    → is_foreign role (lookup m.topology_sha256 owners) ≡ false
    → claim_templates role metadata owners (t ∷ ts)
      ≡ claim_templates role metadata
          (set_default m.topology_sha256 (record { role = role; template_id = t }) owners)
          ts
unfolding claim_templates
claim_templates-first role metadata owners t ts m found free = rw (found, free) refl

topologies-claim_templates :
    (role : TaskRole) (metadata : Dict TemplateMetadata) (owners : Dict TopologyOwner)
    (templates hashes : List String)
    → topologies metadata templates ≡ ok hashes
    → some_of (λ h. is_foreign role (lookup h owners)) hashes ≡ false
    → (owners' : Dict TopologyOwner) × (claim_templates role metadata owners templates ≡ ok owners')
unfolding claim_templates topologies
topologies-claim_templates role metadata owners [] hashes h free = (owners, refl)
topologies-claim_templates role metadata owners (t ∷ ts) hashes h free =
    let (m, found, h₁) = >>=-eq-ok (or_raise (lookup t metadata) (missing_template t)) _ h in
    let (rest, listed, h₂) = >>=-eq-ok (topologies metadata ts) _ h₁ in
    let hash = m.topology_sha256 in
    let same : hash ∷ rest ≡ hashes = cc in
    let (here, later) =
      or-false (is_foreign role (lookup hash owners))
        (some_of (λ h. is_foreign role (lookup h owners)) rest)
        (ap (some_of (λ h. is_foreign role (lookup h owners))) same ∙ free) in
    let owner : TopologyOwner = record { role = role; template_id = t } in
    let (owners', claimed) =
      topologies-claim_templates role metadata (set_default hash owner owners) ts rest listed
        (some_of-cong _ _ rest (λ k. is_foreign-claimed role owners t hash k) ∙ later) in
    (owners', claim_templates-first role metadata owners t ts m found here ∙ claimed)

pub claim_role-Claimed :
    (task_sets : Dict TaskSet) (owners owners' : Dict TopologyOwner) (role : TaskRole)
    (selection : Option TaskSelection)
    → claim_role task_sets owners role selection ≡ ok owners'
    → (hashes : List String) × (split_topologies task_sets selection ≡ ok hashes)
      × Claimed role owners hashes owners'
unfolding claim_role split_topologies Claimed
claim_role-Claimed task_sets owners owners' role none h =
    let same : owners ≡ owners' = cc in
    ([], refl, (refl, λ k. ap (λ x. owner_of x k) (sym same) ∙ or_role-none (owner_of owners k)))
claim_role-Claimed task_sets owners owners' role (some selection) h =
    let (task_set, loaded, h₁) = >>=-eq-ok (benchmark task_sets selection.benchmark_id) _ h in
    let (templates, found, h₂) = >>=-eq-ok (templates_of task_set selection) _ h₁ in
    let (hashes, listed, claimed) =
      claim_templates-Claimed role task_set.tasks_metadata owners owners' templates h₂ in
    (hashes, rw (loaded, found) listed, claimed)

claim_role-some :
    (task_sets : Dict TaskSet) (owners : Dict TopologyOwner) (role : TaskRole)
    (selection : TaskSelection) (task_set : TaskSet) (templates : List String)
    → benchmark task_sets selection.benchmark_id ≡ ok task_set
    → templates_of task_set selection ≡ ok templates
    → claim_role task_sets owners role (some selection)
      ≡ claim_templates role task_set.tasks_metadata owners templates
unfolding claim_role
claim_role-some task_sets owners role selection task_set templates loaded found =
    rw (loaded, found) refl

pub split_topologies-claim_role :
    (task_sets : Dict TaskSet) (owners : Dict TopologyOwner) (role : TaskRole)
    (selection : Option TaskSelection) (hashes : List String)
    → split_topologies task_sets selection ≡ ok hashes
    → some_of (λ h. is_foreign role (lookup h owners)) hashes ≡ false
    → (owners' : Dict TopologyOwner) × (claim_role task_sets owners role selection ≡ ok owners')
unfolding claim_role split_topologies
split_topologies-claim_role task_sets owners role none hashes h free = (owners, refl)
split_topologies-claim_role task_sets owners role (some selection) hashes h free =
    let (task_set, loaded, h₁) = >>=-eq-ok (benchmark task_sets selection.benchmark_id) _ h in
    let (templates, found, h₂) = >>=-eq-ok (templates_of task_set selection) _ h₁ in
    let (owners', claimed) =
      topologies-claim_templates role task_set.tasks_metadata owners templates hashes h₂ free in
    (
      owners',
      claim_role-some task_sets owners role selection task_set templates loaded found ∙ claimed,
    )
