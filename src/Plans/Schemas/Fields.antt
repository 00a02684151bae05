-- ===== src/Plans/Schemas/Fields.antt =====
-- The validators that read one field of a request from JSON, before pydantic checks its type.
use qorl.Prelude.{
  ℕ, String, true, false, not, Option, none, some, List, [], ◌∷◌, ltb, if◌then◌else◌, ◌==◌, nat_eq,
  string_eq, first_of?, is_distinct, Result, ok, err, ◌>>=◌, ◌>>◌, raise_if, or_raise,
}
use qorl.Numbers.{int}
use qorl.Json.{Json, null, number, str, arr, Items, nil, cons}
use qorl.Plans.Errors.{Error, not_a_member, not_members, duplicate_methods, bad_workers}

abbrev max_workers : ℕ
max_workers = 2

-- The texts of a list, if it holds nothing else.
unfoldable pub texts : Items → Option (List String)
texts nil = some []
texts (cons (str s) rest) = elim (texts rest) [ none ↦ none | some ss ↦ some (s ∷ ss) ]
texts (cons _ rest) = none

module _ {ℓ} {A : Type ℓ} (members : List A) (value : A → String) where
  -- enum_type(value)
  unfoldable pub enum_type : String → Result Error A
  enum_type s = or_raise (first_of? (λ m. value m == s) members) not_a_member

  -- _enum(value, enum_type)
  unfoldable pub enum : Json → Result Error A
  unfolding enum_type
  enum (str s) = enum_type s
  enum _ = err not_a_member

  -- The validator of `force`: "auto" is `none`.
  unfoldable pub validate_force : Json → Result Error (Option A)
  unfolding enum
  validate_force (str s) = if s == "auto" then ok none else (enum_type s >>= λ m. ok (some m))
  validate_force _ = err not_a_member

  unfoldable pub enum_types : List String → Result Error (List A)
  unfolding enum_type
  enum_types [] = ok []
  enum_types (s ∷ ss) = do
    m ← or_raise (first_of? (λ m. value m == s) members) not_members
    ms ← enum_types ss
    ok (m ∷ ms)

  -- _enum_list(value, enum_type)
  unfoldable pub enum_list : Json → Result Error (List A)
  unfolding texts enum_types
  enum_list null = ok []
  enum_list (arr items) = do
    ss ← or_raise (texts items) not_members
    raise_if (not (is_distinct ss)) duplicate_methods
    enum_types ss
  enum_list _ = err not_members

-- ParallelRequest.validate_workers
unfoldable pub validate_workers : Json → Result Error ℕ
validate_workers (number (int false n)) = do raise_if (ltb max_workers n) bad_workers; ok n
validate_workers (number (int true n)) = do raise_if (ltb 0 n) bad_workers; ok 0
validate_workers _ = err bad_workers
