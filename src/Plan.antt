-- ===== src/Plan.antt =====
-- actionplan.hpp: the resolved program that the emitter reads. Ids are indices or interned names,
-- kept as numbers. A value node's `kind` and the alternative that its variant holds are one data
-- type here, so a node whose `kind` and variant disagree (on which `std::get` would throw) cannot
-- be written down.
use Prim.Native.String.{String}
use rane_processing_language.Base.{ℕ, Bool, List, Option}

pub record Span : Type 0 where
  pub line : ℕ
  pub col : ℕ
  pub len : ℕ

abbrev pub SymbolId : Type 0
SymbolId = ℕ

abbrev pub TypeId : Type 0
TypeId = ℕ

abbrev pub BlockId : Type 0
BlockId = ℕ

abbrev pub ValueId : Type 0
ValueId = ℕ

pub data CmpOp : Type 0 where
  eq ne lt le gt ge : CmpOp

pub data BinOp : Type 0 where
  add sub mul div mod_op and or xor shl shr sar : BinOp

pub data UnOp : Type 0 where
  neg not bit_not : UnOp

-- An `i64` constant is its 64-bit pattern.
pub data ValueKind : Type 0 where
  invalid : ValueKind
  const_int : ℕ → ValueKind
  const_bool : Bool → ValueKind
  const_null : ValueKind
  var_ref : SymbolId → ValueKind
  global_ref : SymbolId → ValueKind
  field_ref : ValueId → SymbolId → ValueKind
  index_ref : ValueId → ValueId → ValueKind
  call : SymbolId → List ValueId → ValueKind
  compare : CmpOp → ValueId → ValueId → ValueKind
  binary : BinOp → ValueId → ValueId → ValueKind
  unary : UnOp → ValueId → ValueKind
  cast : ValueId → TypeId → ValueKind

pub record ValueNode : Type 0 where
  pub kind : ValueKind
  pub type : TypeId
  pub span : Span
  pub req_caps_mask_hash : ℕ

pub data ActionKind : Type 0 where
  nop : ActionKind
  eval : ValueId → ActionKind
  assign : ValueId → ValueId → ActionKind
  jump : BlockId → ActionKind
  cond_jump : ValueId → BlockId → BlockId → ActionKind
  trap : Option ValueId → ActionKind
  halt : ActionKind

pub record Action : Type 0 where
  pub kind : ActionKind
  pub span : Span
  pub req_caps_mask_hash : ℕ

pub record Block : Type 0 where
  pub id : BlockId
  pub label : String
  pub actions : List Action

pub record CapSet : Type 0 where
  pub words : List ℕ

pub record ProcPlan : Type 0 where
  pub proc_symbol : SymbolId
  pub ret_type : TypeId
  pub params : List SymbolId
  pub param_types : List TypeId
  pub declared_caps : CapSet
  pub blocks : List Block
  pub entry : BlockId
  pub locals : List SymbolId
  pub local_types : List TypeId

pub record ActionPlan : Type 0 where
  pub values : List ValueNode
  pub procs : List ProcPlan
  pub cap_names : List String
