-- ===== src/Taskset/Sampling/Drawing.antt =====
-- The samples that `select_tasks` of src/qorl/taskset/selection.py draws from the available tasks.
use qorl.Prelude.{
  ℕ, ◌≤◌, String, ◌≡◌, refl, sym, ap, ◌∙◌, ◌≢◌, inl, inr, Bool, true, false, not, ◌||◌, none, some,
  List, [], ◌∷◌, map, arith, ltb, lt→ltb, Bool-cases, ◌==◌, nat_eq, string_eq, length, keep,
  contains, is_distinct, is_subset, contains-append, is_subset_iff, sorted, length-sorted, name_le,
  contains-sorted, Result, ok, raise_if, or_raise, >>=-eq-ok, >>-eq-ok, Dict, lookup, is_none,
  is_empty, sorted-is_subset,
}
use qorl.Taskset.Schemas.{
  BenchmarkId, benchmark_value, TaskRole, role_eq, Task, TaskSet, TaskSelection, TemplateMetadata,
  TaskSetError, validate_task_ids, duplicate_selected, duplicate_role, unknown_template, too_few,
  nothing_remains, TemplateSample, SelectionExpression,
}
use qorl.Taskset.Selection.{benchmark}
use qorl.Taskset.Sampling.{
  Excluded, available_of, by_template, selection_of, sample_templates, choose_ids, select_role,
  select_each,
}

abbrev pub ids_of : List Task → List String
ids_of tasks = map (λ t. t.task_id) tasks

-- The tasks of a selection are among those that are available.
pub record IsDrawn (task_sets : Dict TaskSet) (excluded : Excluded) (s : TaskSelection)
    : Type 0 where
  pub task_set : TaskSet
  pub loaded : benchmark task_sets s.benchmark_id ≡ ok task_set
  pub chosen : is_subset s.task_ids (map (λ t. t.task_id) (available_of excluded task_set)) ≡ true

-- What `random.sample` relies on: no more members are drawn than there are, and each is a member.
abbrev pub DrawsMembers : (String → String → List String → ℕ → List String) → Type 0
DrawsMembers draw =
    (b t : String) (xs : List String) (n : ℕ) → n ≤ length xs → is_subset (draw b t xs n) xs ≡ true

ids_of-keep :
    (p : Task → Bool) (tasks : List Task) (a : String)
    → contains (ids_of (keep p tasks)) a ≡ true
    → contains (ids_of tasks) a ≡ true
ids_of-keep p [] a h = h
ids_of-keep p (t ∷ tasks) a h = elim (Bool-cases (p t)) [
  | inl yes_kept ↦ ground (arith, ids_of-keep p tasks a)
  | inr left_out ↦ ground (arith, ids_of-keep p tasks a)
]

length_allowed : (n m : ℕ) → ltb m n ≡ false → n ≤ m
length_allowed n m h = ground (arith, lt→ltb m n)

raise_if-passed : (b : Bool) (e : TaskSetError) → raise_if b e ≡ ok tt → b ≡ false
raise_if-passed true e h = cc
raise_if-passed false e h = refl

none_held :
    (ids : List String) (a : String)
    → ◌≡◌ {A = Result TaskSetError (List String)} (ok []) (ok ids)
    → contains ids a ≢ true
none_held [] a h held = ground arith
none_held (i ∷ ids) a h held = cc

held_by :
    (ids rest : List String) (a : String)
    → ◌≡◌ {A = Result TaskSetError (List String)} (ok rest) (ok ids)
    → contains ids a ≡ true
    → contains rest a ≡ true
held_by ids rest a h held = let same : rest ≡ ids = cc in rw same held

either : (x y z : Bool) → (x ≡ true → z ≡ true) → (y ≡ true → z ≡ true) → (x || y) ≡ true → z ≡ true
either x y z left right h = ground arith

pub none_differs : {A : Type 0} {x : A} → none ≢ some x
none_differs h = cc

IsDrawn-eq :
    (task_sets : Dict TaskSet) (excluded : Excluded) (s t : TaskSelection)
    → IsDrawn task_sets excluded s
    → some s ≡ some t
    → IsDrawn task_sets excluded t
IsDrawn-eq task_sets excluded s t good h = let same : t ≡ s = cc in rw same good

selection_of-IsDrawn :
    (task_sets : Dict TaskSet) (excluded : Excluded) (before : List (TaskRole × TaskSelection))
    (role : TaskRole) (selection : TaskSelection)
    → IsDrawn task_sets excluded selection
    → ((r : TaskRole) (s : TaskSelection)
        → selection_of r before ≡ some s
        → IsDrawn task_sets excluded s)
    → (r : TaskRole) (s : TaskSelection) → selection_of r ((role, selection) ∷ before) ≡ some s
    → IsDrawn task_sets excluded s
unfolding selection_of
selection_of-IsDrawn task_sets excluded before role selection fresh good r s held =
    elim (Bool-cases (role == r)) [
      | inl same ↦ IsDrawn-eq task_sets excluded selection s fresh (sym (rw same refl) ∙ held)
      | inr other ↦ good r s (sym (rw other refl) ∙ held)
    ]

module _ (draw : String → String → List String → ℕ → List String) (fair : DrawsMembers draw) where
  draw-by_template :
      (b t : String) (tasks : List Task) (n : ℕ) (a : String)
      → n ≤ length (by_template t tasks)
      → contains (draw b t (sorted name_le (by_template t tasks)) n) a ≡ true
      → contains (ids_of tasks) a ≡ true
  unfolding by_template
  draw-by_template b t tasks n a few h =
      let members = by_template t tasks in
      let drawn =
        (is_subset_iff (draw b t (sorted name_le members) n) (sorted name_le members)).0
          (fair b t (sorted name_le members) n (rw (length-sorted name_le members) few)) a h in
      ids_of-keep (λ u. u.template_id == t) tasks a
        (sym (contains-sorted name_le members a) ∙ drawn)

  sample_templates-available :
      (parse : String → Result TaskSetError SelectionExpression) (b : BenchmarkId)
      (metadata : Dict TemplateMetadata) (tasks : List Task) (samples : List TemplateSample)
      (ids : List String) (a : String)
      → sample_templates parse draw b metadata tasks samples ≡ ok ids
      → contains ids a ≡ true
      → contains (ids_of tasks) a ≡ true
  unfolding sample_templates
  sample_templates-available parse b metadata tasks [] ids a h held =
      absurd (none_held ids a h held)
  sample_templates-available parse b metadata tasks (s ∷ samples) ids a h held =
      let members = by_template s.template_id tasks in
      let (m, _, h₁) =
        >>=-eq-ok (or_raise (lookup s.template_id metadata) (unknown_template s.template_id)) _ h in
      let (few, h₂) =
        >>-eq-ok
          (raise_if (ltb (length members) s.count) (too_few s.template_id s.count (length members)))
          _ h₁ in
      let (rest, drawn, made) =
        >>=-eq-ok (sample_templates parse draw b metadata tasks samples) _ h₂ in
      let enough = length_allowed s.count (length members) (raise_if-passed _ _ few) in
      let sample = draw (benchmark_value b) s.template_id (sorted name_le members) s.count in
      either (contains sample a) (contains rest a) (contains (ids_of tasks) a)
        (draw-by_template (benchmark_value b) s.template_id tasks s.count a enough)
        (sample_templates-available parse b metadata tasks samples rest a drawn)
        (sym (contains-append sample rest a) ∙ held_by _ _ a made held)

  choose_ids-available :
      (parse : String → Result TaskSetError SelectionExpression) (b : BenchmarkId)
      (metadata : Dict TemplateMetadata) (tasks : List Task) (samples : List TemplateSample)
      (ids : List String)
      → choose_ids parse draw b metadata tasks samples ≡ ok ids
      → is_subset ids (ids_of tasks) ≡ true
  unfolding choose_ids
  choose_ids-available parse b metadata tasks [] ids h =
      (is_subset_iff ids (ids_of tasks)).1 (λ a held. held_by ids (ids_of tasks) a h held)
  choose_ids-available parse b metadata tasks (s ∷ samples) ids h =
      (is_subset_iff ids (ids_of tasks)).1
        (λ a held. sample_templates-available parse b metadata tasks (s ∷ samples) ids a h held)

  select_role-IsDrawn :
      (parse : String → Result TaskSetError SelectionExpression) (task_sets : Dict TaskSet)
      (excluded : Excluded) (expression : String) (parsed : SelectionExpression) (s : TaskSelection)
      → select_role parse draw task_sets excluded expression parsed ≡ ok s
      → IsDrawn task_sets excluded s
  unfolding select_role validate_task_ids
  select_role-IsDrawn parse task_sets excluded expression parsed s h =
      let (set, found, h₁) = >>=-eq-ok (benchmark task_sets parsed.benchmark_id) _ h in
      let tasks = available_of excluded set in
      let (ids, chosen, h₂) =
        >>=-eq-ok
          (choose_ids parse draw parsed.benchmark_id set.tasks_metadata tasks parsed.templates) _
          h₁ in
      let (_, h₃) = >>-eq-ok (raise_if (is_empty ids) (nothing_remains expression)) _ h₂ in
      let (_, made) =
        >>-eq-ok (raise_if (not (is_distinct (sorted name_le ids))) duplicate_selected) _ h₃ in
      let subset =
        choose_ids-available parse parsed.benchmark_id set.tasks_metadata tasks parsed.templates ids
          chosen in
      let same : s ≡ record { benchmark_id = parsed.benchmark_id; task_ids = sorted name_le ids } =
        cc in
      record {
        task_set = set;
        loaded = ap (λ x. benchmark task_sets x.benchmark_id) same ∙ found;
        chosen =
            ap (λ x. is_subset x.task_ids (ids_of tasks)) same
            ∙ (sorted-is_subset name_le ids (ids_of tasks) ∙ subset);
      }

  pub select_each-IsDrawn :
      (parse : String → Result TaskSetError SelectionExpression) (task_sets : Dict TaskSet)
      (excluded : Excluded) (before : List (TaskRole × TaskSelection)) (expressions : List String)
      (after : List (TaskRole × TaskSelection))
      → ((r : TaskRole) (s : TaskSelection)
          → selection_of r before ≡ some s
          → IsDrawn task_sets excluded s)
      → select_each parse draw task_sets excluded before expressions ≡ ok after
      → (r : TaskRole) (s : TaskSelection) → selection_of r after ≡ some s
      → IsDrawn task_sets excluded s
  unfolding select_each
  select_each-IsDrawn parse task_sets excluded before [] after good h r s held =
      let same : before ≡ after = cc in good r s (ap (selection_of r) same ∙ held)
  select_each-IsDrawn parse task_sets excluded before (e ∷ expressions) after good h r s held =
      let (parsed, _, h₁) = >>=-eq-ok (parse e) _ h in
      let (_, h₂) =
        >>-eq-ok
          (raise_if (not (is_none (selection_of parsed.role before))) (duplicate_role parsed.role))
          _ h₁ in
      let (selection, made, h₃) =
        >>=-eq-ok (select_role parse draw task_sets excluded e parsed) _ h₂ in
      let fresh = select_role-IsDrawn parse task_sets excluded e parsed selection made in
      select_each-IsDrawn parse task_sets excluded ((parsed.role, selection) ∷ before) expressions
        after
        (λ q t. selection_of-IsDrawn task_sets excluded before parsed.role selection fresh good q t)
        h₃ r s held
