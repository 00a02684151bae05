-- ===== src/Plans/Methods.antt =====
-- The enumerations and the hint tables of src/qorl/plans/schemas.py. `frozenset` keys are lists in
-- the order of the enumeration.
use qorl.Prelude.{
  String, ◌≡◌, ◌↔◌, Bool, true, false, Option, none, some, List, [], ◌∷◌, arith, Eq, nat_eq,
  string_eq, without,
}

pub data JoinMethod : Type 0 where
  hash merge nestloop : JoinMethod

pub data ScanMethod : Type 0 where
  seq index index_only bitmap : ScanMethod

pub data MemoizeMode : Type 0 where
  auto force forbid : MemoizeMode

pub data RowMode : Type 0 where
  absolute add subtract multiply : RowMode

pub data ParallelMode : Type 0 where
  soft hard : ParallelMode

abbrev pub join_methods : List JoinMethod
join_methods = hash ∷ merge ∷ nestloop ∷ []

abbrev pub scan_methods : List ScanMethod
scan_methods = seq ∷ index ∷ index_only ∷ bitmap ∷ []

abbrev pub memoize_modes : List MemoizeMode
memoize_modes = auto ∷ force ∷ forbid ∷ []

abbrev pub row_modes : List RowMode
row_modes = absolute ∷ add ∷ subtract ∷ multiply ∷ []

abbrev pub parallel_modes : List ParallelMode
parallel_modes = soft ∷ hard ∷ []

-- The value of each member.
abbrev pub join_value : JoinMethod → String
join_value hash = "hash"
join_value merge = "merge"
join_value nestloop = "nestloop"

abbrev pub scan_value : ScanMethod → String
scan_value seq = "seq"
scan_value index = "index"
scan_value index_only = "index_only"
scan_value bitmap = "bitmap"

abbrev pub memoize_value : MemoizeMode → String
memoize_value auto = "auto"
memoize_value force = "force"
memoize_value forbid = "forbid"

abbrev pub row_value : RowMode → String
row_value absolute = "absolute"
row_value add = "add"
row_value subtract = "subtract"
row_value multiply = "multiply"

abbrev pub parallel_value : ParallelMode → String
parallel_value soft = "soft"
parallel_value hard = "hard"

abbrev join_beq : JoinMethod → JoinMethod → Bool
join_beq hash hash = true
join_beq merge merge = true
join_beq nestloop nestloop = true
join_beq _ _ = false

pub join_beq_iff : (a b : JoinMethod) → (join_beq a b ≡ true) ↔ (a ≡ b)
join_beq_iff a b = ground arith

abbrev scan_beq : ScanMethod → ScanMethod → Bool
scan_beq seq seq = true
scan_beq index index = true
scan_beq index_only index_only = true
scan_beq bitmap bitmap = true
scan_beq _ _ = false

pub scan_beq_iff : (a b : ScanMethod) → (scan_beq a b ≡ true) ↔ (a ≡ b)
scan_beq_iff a b = ground arith

abbrev memoize_beq : MemoizeMode → MemoizeMode → Bool
memoize_beq auto auto = true
memoize_beq force force = true
memoize_beq forbid forbid = true
memoize_beq _ _ = false

pub memoize_beq_iff : (a b : MemoizeMode) → (memoize_beq a b ≡ true) ↔ (a ≡ b)
memoize_beq_iff a b = ground arith

instance abbrev pub join_eq : Eq JoinMethod
join_eq = record { beq = join_beq; beq_iff = join_beq_iff }

instance abbrev pub scan_eq : Eq ScanMethod
scan_eq = record { beq = scan_beq; beq_iff = scan_beq_iff }

instance abbrev pub memoize_eq : Eq MemoizeMode
memoize_eq = record { beq = memoize_beq; beq_iff = memoize_beq_iff }

-- JOIN_METHOD_HINTS.get(allowed)
unfoldable pub join_method_hint : List JoinMethod → Option String
join_method_hint (hash ∷ []) = some "HashJoin"
join_method_hint (merge ∷ []) = some "MergeJoin"
join_method_hint (nestloop ∷ []) = some "NestLoop"
join_method_hint (merge ∷ nestloop ∷ []) = some "NoHashJoin"
join_method_hint (hash ∷ nestloop ∷ []) = some "NoMergeJoin"
join_method_hint (hash ∷ merge ∷ []) = some "NoNestLoop"
join_method_hint _ = none

-- SCAN_METHOD_HINTS.get(allowed)
unfoldable pub scan_method_hint : List ScanMethod → Option String
scan_method_hint (seq ∷ []) = some "SeqScan"
scan_method_hint (index ∷ []) = some "IndexScan"
scan_method_hint (index_only ∷ []) = some "IndexOnlyScan"
scan_method_hint (bitmap ∷ []) = some "BitmapScan"
scan_method_hint (index ∷ index_only ∷ []) = some "IndexOnlyScan"
scan_method_hint (seq ∷ bitmap ∷ []) = some "NoIndexScan"
scan_method_hint (index ∷ index_only ∷ bitmap ∷ []) = some "NoSeqScan"
scan_method_hint (seq ∷ index ∷ bitmap ∷ []) = some "NoIndexOnlyScan"
scan_method_hint (seq ∷ index ∷ index_only ∷ []) = some "NoBitmapScan"
scan_method_hint _ = none

-- `allowed_methods` of a constraint: what `force` leaves, without what `forbid` names. `none` is
-- the value "auto".
module _ {ℓ} {A : Type ℓ} ⦃e : Eq A⦄ where
  unfoldable pub allowed_methods : List A → Option A → List A → List A
  allowed_methods members (some forced) forbidden = without (forced ∷ []) forbidden
  allowed_methods members none forbidden = without members forbidden
