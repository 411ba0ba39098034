-- ===== src/Store/Ops.antt =====
-- The methods of `InMemorySquireStore` (src-tauri/src/agent/squire/store.rs).
use agent_squire.Base.{
  ℕ, zero, suc, ◌+◌, ◌%◌, ◌^◌, String, ◌==◌, Bool, true, ◌&&◌, Option, none, some, List, [], ◌∷◌,
  ◌++◌, if◌then◌else◌, is_some, unwrap_or, retain,
}
use agent_squire.Base.Dict.{Dict, lookup, contains_key, insert, modify, upsert, keys}
use agent_squire.Store.Types.{
  NewTokenSpec, TokenDetail, StoredToken, TokenSummary, Relationship, ComplianceFailureRecord,
  RawPartitionRecord, has_parent, contains_edge,
}
use mathlib.Core.Option

pub record SquireState : Type 0 where
  pub tokens : Dict StoredToken
  pub relationships : List Relationship
  pub preserve_lists : Dict (List String)
  pub turns : Dict ℕ
  pub compliance_failures : List ComplianceFailureRecord
  pub raw_partition : List RawPartitionRecord

-- `x += 1` on a `u64`.
abbrev pub incr_u64 : ℕ → ℕ
incr_u64 n = (n + 1) % 2 ^ 64

abbrev pub is_empty {ℓ} : {A : Type ℓ} → List A → Bool
is_empty [] = true
is_empty (x ∷ xs) = Bool.false

unfoldable pub token_exists : SquireState → String → Bool
token_exists s id = contains_key id s.tokens

-- The closure of `and_modify`.
unfoldable pub merge_token : NewTokenSpec → StoredToken → StoredToken
merge_token n t = record t {
  short_desc = n.short_desc;
  full_desc = if is_some n.full_desc then n.full_desc else t.full_desc;
  endpoint = if is_some n.endpoint then n.endpoint else t.endpoint;
  tags = if is_empty n.tags then t.tags else n.tags;
  properties = if is_empty n.properties then t.properties else n.properties;
  accumulated_hits = incr_u64 t.accumulated_hits;
}

-- The value of `or_insert`.
unfoldable pub new_token : NewTokenSpec → ℕ → String → StoredToken
new_token n creation_turn session_id = record {
  token_type = n.token_type;
  short_desc = n.short_desc;
  full_desc = n.full_desc;
  creation_turn = creation_turn;
  accumulated_hits = 1;
  endpoint = n.endpoint;
  ranges = n.ranges;
  session_id = session_id;
  tags = n.tags;
  properties = n.properties;
}

unfoldable pub upsert_token : SquireState → NewTokenSpec → ℕ → String → SquireState
upsert_token s n creation_turn session_id = record s {
  tokens =
      if contains_key n.id s.tokens
      then modify n.id (merge_token n) s.tokens
      else insert n.id (new_token n creation_turn session_id) s.tokens;
}

unfoldable pub insert_relationship : SquireState → Relationship → SquireState
insert_relationship s rel = record s { relationships = s.relationships ++ rel ∷ [] }

unfoldable pub set_preserve_list : SquireState → String → List String → SquireState
set_preserve_list s session_id ids = record s {
  preserve_lists = insert session_id ids s.preserve_lists;
}

abbrev pub summary_of : String → StoredToken → TokenSummary
summary_of id t = record {
  token_id = id;
  token_type = t.token_type;
  short_desc = t.short_desc;
  accumulated_hits = t.accumulated_hits;
  hop_distance = 0;
  via_token_id = none;
  tags = t.tags;
  properties = t.properties;
}

abbrev pub hit : StoredToken → StoredToken
hit t = record t { accumulated_hits = incr_u64 t.accumulated_hits }

-- The loop of `preserved_tokens`.
unfoldable pub load_preserved :
    List String → Dict StoredToken → Dict StoredToken × List TokenSummary
load_preserved [] tokens = (tokens, [])
load_preserved (id ∷ ids) tokens = elim (lookup id tokens) [
  | none ↦ load_preserved ids tokens
  | some t ↦
      let (tokens', out) = load_preserved ids (modify id hit tokens) in
      (tokens', summary_of id (hit t) ∷ out)
]

unfoldable pub preserved_tokens : SquireState → String → SquireState × List TokenSummary
preserved_tokens s session_id =
    let (tokens', out) =
      load_preserved (unwrap_or [] (lookup session_id s.preserve_lists)) s.tokens in
    (record s { tokens = tokens' }, out)

abbrev pub detail_of : StoredToken → TokenDetail
detail_of t = record {
  short_desc = t.short_desc;
  full_desc = t.full_desc;
  endpoint = t.endpoint;
  ranges = t.ranges;
  tags = t.tags;
  properties = t.properties;
}

unfoldable pub token_detail : SquireState → String → Option TokenDetail
token_detail s id = Option.map detail_of (lookup id s.tokens)

unfoldable pub current_turn : SquireState → String → ℕ
current_turn s session_id = unwrap_or 0 (lookup session_id s.turns)

unfoldable pub increment_turn : SquireState → String → SquireState
increment_turn s session_id = record s { turns = upsert session_id 0 incr_u64 s.turns }

unfoldable pub record_compliance_failure : SquireState → ComplianceFailureRecord → SquireState
record_compliance_failure s r = record s { compliance_failures = s.compliance_failures ++ r ∷ [] }

unfoldable pub clear_all_preserve_lists : SquireState → SquireState
clear_all_preserve_lists s = record s { preserve_lists = [] }

unfoldable pub record_hit : SquireState → String → SquireState
record_hit s id = record s { tokens = modify id hit s.tokens }

-- `now` is the clock's reading.
unfoldable pub record_raw_output : SquireState → String → ℕ → String → ℕ → SquireState
record_raw_output s session_id turn content now = record s {
  raw_partition =
      s.raw_partition
      ++ record { session_id = session_id; turn = turn; content = content; timestamp = now } ∷ [];
}

-- A filter argument: `None` matches all values.
abbrev pub matches : Option String → String → Bool
matches none x = true
matches (some f) x = x == f

unfoldable pub get_relationships :
    SquireState → Option String → Option String → Option String → List Relationship
get_relationships s subject predicate object =
    retain
      (λ r. matches subject r.subject && (matches predicate r.predicate && matches object r.object))
      s.relationships

unfoldable pub list_token_ids : SquireState → List String
list_token_ids s = keys s.tokens

-- The default of the trait: all tokens.
unfoldable pub list_token_ids_by_session : SquireState → String → List String
unfolding list_token_ids
list_token_ids_by_session s session_id = list_token_ids s

-- The filter and the map of `get_instances`.
unfoldable pub instances_of : String → Dict StoredToken → List TokenSummary
instances_of token_type [] = []
instances_of token_type ((id, t) ∷ tokens) =
    let rest = instances_of token_type tokens in
    if t.token_type == token_type then summary_of id t ∷ rest else rest

unfoldable pub get_instances : SquireState → String → List TokenSummary
unfolding instances_of
get_instances s token_type = instances_of token_type s.tokens

unfoldable pub add_relationship : SquireState → Relationship → SquireState
unfolding insert_relationship
add_relationship s rel =
    if rel.predicate == contains_edge
    then s
    else if rel.predicate == has_parent
    then insert_relationship (insert_relationship s rel)
        (record { subject = rel.object; predicate = contains_edge; object = rel.subject })
    else insert_relationship s rel

abbrev pub head? {ℓ} : {A : Type ℓ} → List A → Option A
head? [] = none
head? (x ∷ xs) = some x

-- The summaries of the objects that are tokens.
unfoldable pub summarise : Dict StoredToken → List Relationship → List TokenSummary
summarise tokens [] = []
summarise tokens (r ∷ rels) =
    let rest = summarise tokens rels in
    elim (lookup r.object tokens) [ none ↦ rest | some t ↦ summary_of r.object t ∷ rest ]

unfoldable pub get_children : SquireState → String → List TokenSummary
unfolding get_relationships summarise
get_children s id = summarise s.tokens (get_relationships s (some id) (some has_parent) none)

abbrev pub parent_edge : SquireState → String → Option Relationship
parent_edge s id = head? (get_relationships s none (some has_parent) (some id))

unfoldable pub get_parent : SquireState → String → Option TokenSummary
unfolding get_relationships
get_parent s id = elim (parent_edge s id) [
  | none ↦ none
  | some r ↦ Option.map (summary_of r.subject) (lookup r.subject s.tokens)
]

-- The number counts the rounds of `for _ in 0..max_depth` that are left.
unfoldable pub get_ancestors : SquireState → String → ℕ → List TokenSummary
unfolding get_relationships
get_ancestors s id zero = []
get_ancestors s id (suc left) = elim (parent_edge s id) [
  | none ↦ []
  | some r ↦
      let rest = get_ancestors s r.subject left in
      elim (lookup r.subject s.tokens) [ none ↦ rest | some t ↦ summary_of r.subject t ∷ rest ]
]

unfoldable pub get_type : SquireState → String → Option String
get_type s id = Option.map (λ t. t.token_type) (lookup id s.tokens)

-- The loop of `get_root` has no bound: the outer `none` says that the fuel ran out.
unfoldable pub get_root : ℕ → SquireState → String → Option (Option TokenSummary)
unfolding get_relationships
get_root zero s id = none
get_root (suc fuel) s id = elim (parent_edge s id) [
  | none ↦ some (Option.map (summary_of id) (lookup id s.tokens))
  | some r ↦ get_root fuel s r.subject
]
