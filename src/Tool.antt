-- ===== src/Tool.antt =====
-- What the tree tools share: `ToolResult` in src-tauri/src/agent/mod.rs, and the arguments of a call.
-- The text of an output is a value of a type that each tool has for itself, with a constructor for
-- each `format!` or `json!` of the code and its arguments as fields.
use agent_squire.Base.{◌≡◌, refl, ◌⊎◌, inl, inr, String, Bool, true, false, Option, List}

pub record ToolResult (O : Type 0) : Type 0 where
  pub call_id : String
  pub output : O
  pub is_error : Bool

pub data Result (E : Type 0) (A : Type 0) : Type 0 where
  ok : A → Result E A
  err : E → Result E A

pub ok-injective : {E A : Type 0} {x y : A} → ◌≡◌ {A = Result E A} (ok x) (ok y) → x ≡ y
ok-injective e = cc

pub err-injective : {E A : Type 0} {x y : E} → ◌≡◌ {A = Result E A} (err x) (err y) → x ≡ y
err-injective e = cc

pub Result-cases :
    {E A : Type 0} (r : Result E A) → ((a : A) × (r ≡ ok a)) ⊎ ((e : E) × (r ≡ err e))
Result-cases (ok a) = inl (a, refl)
Result-cases (err e) = inr (e, refl)

-- The JSON object of a single operation, as the code reads it: a field holds the result of
-- `args.get(key).and_then(|v| v.as_str())` at its key.
pub record Args : Type 0 where
  pub operation : Option String
  pub id : Option String
  pub title : Option String
  pub parent_id : Option String
  pub status : Option String
  pub path : Option String
  pub assumption : Option String
  pub evidence : Option String

-- The object of a whole call: `operations` is `args.get("operations").and_then(|v| v.as_array())`.
pub record Request : Type 0 where
  pub args : Args
  pub operations : Option (List Args)

abbrev pub failed : {O : Type 0} → String → O → ToolResult O
failed call_id output = record { call_id = call_id; output = output; is_error = true }

abbrev pub succeeded : {O : Type 0} → String → O → ToolResult O
succeeded call_id output = record { call_id = call_id; output = output; is_error = false }
