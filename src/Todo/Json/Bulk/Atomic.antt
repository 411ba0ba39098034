-- ===== src/Todo/Json/Bulk/Atomic.antt =====
-- The operation "bulk" on the JSON file is all or nothing.
use agent_squire.Base.{
  ℕ, ◌+◌, ◌≤◌, ◌<◌, ◌≡◌, refl, sym, ap, ◌∙◌, subst, ◌⊎◌, inl, inr, String, Bool, true, false,
  Option, none, some, List, [], ◌∷◌, ◌++◌, if◌then◌else◌, Option-cases, length, arith,
}
use agent_squire.Tool.{ToolResult, ok, Args, Request, failed, succeeded, Result-cases}
use agent_squire.Todo.Json.{TodoStore}
use agent_squire.Todo.Json.Tool.{
  Files, Codec, BulkOutcome, LegacyOutput, bulk_required, save_failed, todo_tree_bulk, load, save,
  save_then,
}
use agent_squire.Todo.Json.Forest.{IsForest}
use agent_squire.Todo.Json.Bulk.{
  Round, stop, next, Bulk, aborted, finished, legacy_bulk_loop, finish_bulk, legacy_bulk,
}
use agent_squire.Todo.Json.Bulk.Rounds.{RoundOk, bulk_round-Total, longer-IsForest}

-- How the loop ends, from a store and a value of `mutated`.
abbrev pub BulkOk : ℕ → TodoStore → Bool → Bulk → Type 0
BulkOk b st mutated (aborted e) = Unit
BulkOk b st mutated (finished st' m results) =
    IsForest b st' × (m ≡ false → (mutated ≡ false) × (st' ≡ st))

BulkOk-step :
    (b c : ℕ) (st st' : TodoStore) (changed mutated : Bool) (q : Bulk)
    → (changed ≡ false → st' ≡ st)
    → b ≤ c
    → BulkOk b st' (if changed then true else mutated) q
    → BulkOk c st mutated q
BulkOk-step b c st st' changed mutated (aborted e) same h ok_q = tt
BulkOk-step b c st st' true mutated (finished st'' m results) same h (f, back) =
    (longer-IsForest b c st'' h f, λ e. cc (sym (back e).0))
BulkOk-step b c st st' false mutated (finished st'' m results) same h (f, back) =
    (longer-IsForest b c st'' h f, λ e. ((back e).0, (back e).1 ∙ same refl))

Round-cases :
    (r : Round)
    → ((out : LegacyOutput) × (r ≡ stop out))
      ⊎ ((st : TodoStore) × (changed : Bool) × (entry : BulkOutcome) × (r ≡ next st changed entry))
Round-cases (stop out) = inl (out, refl)
Round-cases (next st changed entry) = inr (st, changed, entry, refl)

legacy_bulk_loop_total :
    (fuel : ℕ) (now uuid : ℕ → String) (ops : List Args) (idx : ℕ) (st : TodoStore) (mutated : Bool)
    (results : List BulkOutcome) (b : ℕ)
    → IsForest b st
    → 1 + b + length ops < fuel
    → (r : Bulk) × (legacy_bulk_loop fuel now uuid ops idx st mutated results ≡ some r)
      × BulkOk (b + length ops) st mutated r
unfolding legacy_bulk_loop
legacy_bulk_loop_total fuel now uuid [] idx st mutated results b f h = (
  finished st mutated results,
  refl,
  (longer-IsForest b (b + 0) st (omega arith) f, λ e. (e, refl)),
)
legacy_bulk_loop_total fuel now uuid (op ∷ ops) idx st mutated results b f h =
    elim (Option-cases op.operation) [
      | inl miss ↦
          (aborted (bulk_required idx "operation" ""), rw (legacy_bulk_loop, miss) refl, tt)
      | inr (name, given) ↦
          let (r, e, fine) =
            bulk_round-Total fuel (now idx) (uuid idx) idx op st b f (omega arith) name in
          elim (Round-cases r) [
            | inl (out, is) ↦
                (aborted out, rw (legacy_bulk_loop, given, legacy_bulk_loop, e, is) refl, tt)
            | inr (st', changed, entry, is) ↦
                let (f', same) : RoundOk b st (next st' changed entry) =
                  subst (RoundOk b st) is fine in
                let (q, g, good) =
                  legacy_bulk_loop_total fuel now uuid ops (idx + 1) st'
                    (if changed then true else mutated) (results ++ entry ∷ []) (1 + b) f'
                    (omega arith) in
                (
                  q,
                  rw (legacy_bulk_loop, given, legacy_bulk_loop, e, is) g,
                  BulkOk-step (1 + b + length ops) (b + length (op ∷ ops)) st st' changed mutated q
                      same (omega arith) good,
                )
          ]
    ]

-- What the code relies on: a write that succeeds is read back, and serde_json reads what it wrote.
pub record IsDurable {D : Type 0} (files : Files D) (codec : Codec) : Type 0 where
  pub read_back :
      (path content : String) (d d' : D)
      → files.write_file path content d ≡ (d', none)
      → files.read_file path d' ≡ some content
  pub decode_encode :
      (st : TodoStore) (content : String)
      → codec.encode st ≡ ok content
      → codec.decode content ≡ some st

module _ {D : Type 0} (files : Files D) (codec : Codec) where
  -- The ways in which the operation "bulk" ends, by how its loop ended.
  pub data BulkEnd (call_id path : String) (loop : Option Bulk) (d d' : D)
      : ToolResult LegacyOutput → Type 0 where
    applied :
        (b : ℕ) (st' : TodoStore) (m : Bool) (results : List BulkOutcome)
        → loop ≡ some (finished st' m results)
        → IsForest b st'
        → load files codec path d' ≡ st'
        → BulkEnd call_id path loop d d' (succeeded call_id (todo_tree_bulk results))
    refused :
        (why : LegacyOutput)
        → loop ≡ some (aborted why)
        → d' ≡ d
        → BulkEnd call_id path loop d d' (failed call_id why)
    not_saved :
        (why : String) (st' : TodoStore) (results : List BulkOutcome)
        → loop ≡ some (finished st' true results)
        → save files codec path st' d ≡ (d', some why)
        → BulkEnd call_id path loop d d' (failed call_id (save_failed why))

module _ {D : Type 0} (files : Files D) (codec : Codec) (durable : IsDurable files codec) where
  -- What was saved is loaded.
  pub load-save :
      (path : String) (st : TodoStore) (d d' : D)
      → save files codec path st d ≡ (d', none)
      → load files codec path d' ≡ st
  unfolding save load
  load-save path st d d' e = elim (Result-cases (codec.encode st)) [
    | inr (why, bad) ↦ cc (ap (λ (x : D × Option String). x.1) (rw (bad, save) at e))
    | inl (content, good) ↦
        let back = durable.read_back path content d d' (rw (good, save) at e) in
        let same = durable.decode_encode st content good in rw (load, back, same) refl
  ]

  finish_bulk_end :
      (fuel : ℕ) (now uuid : ℕ → String) (path call_id : String) (b : ℕ) (d : D) (q : Bulk)
      → BulkOk b (load files codec path d) false q
      → (d' : D) × (r : ToolResult LegacyOutput) × (finish_bulk files codec fuel now uuid path
            call_id q d
          ≡ (d', r))
        × BulkEnd files codec call_id path (some q) d d' r
  unfolding finish_bulk save_then
  finish_bulk_end fuel now uuid path call_id b d (aborted e) fine =
      (d, _, refl, refused e refl refl)
  finish_bulk_end fuel now uuid path call_id b d (finished st false results) (f, same) =
      (d, _, refl, applied b st false results refl f (sym (same refl).1))
  finish_bulk_end fuel now uuid path call_id b d (finished st true results) (f, same) =
      let d' = (save files codec path st d).0 in
      elim (Option-cases (save files codec path st d).1) [
        | inl fine ↦
            let done : save files codec path st d ≡ (d', none) = ap (λ o. (d', o)) fine in
            (
              d',
              succeeded call_id (todo_tree_bulk results),
              rw (finish_bulk, save_then, fine) refl,
              applied b st true results refl f (load-save path st d d' done),
            )
        | inr (why, bad) ↦
            let done : save files codec path st d ≡ (d', some why) = ap (λ o. (d', o)) bad in
            (
              d',
              failed call_id (save_failed why),
              rw (finish_bulk, save_then, bad) refl,
              not_saved why st results refl done,
            )
      ]

  -- On a forest, with more fuel than the length of its paths and the number of operations allow, the
  -- operation "bulk" with some operation returns. It ends in one of three ways: all operations were
  -- accepted, and what the file then holds is the store that they leave, which is a forest; one was
  -- refused, its error is reported, and the files are as they were; or the one write failed.
  pub legacy_bulk_atomic :
      (fuel : ℕ) (now uuid : ℕ → String) (path call_id : String) (req : Request) (op : Args)
      (ops : List Args) (d : D) (b : ℕ)
      → req.operations ≡ some (op ∷ ops)
      → IsForest b (load files codec path d)
      → 2 + b + length ops < fuel
      → (d' : D) × (r : ToolResult LegacyOutput) × (legacy_bulk files codec fuel now uuid path
            call_id req d
          ≡ some (d', r))
        × BulkEnd files codec call_id path
            (legacy_bulk_loop fuel now uuid (op ∷ ops) 0 (load files codec path d) false [])
            d
            d'
            r
  unfolding legacy_bulk
  legacy_bulk_atomic fuel now uuid path call_id req op ops d b given f enough =
      let (q, e, fine) =
        legacy_bulk_loop_total fuel now uuid (op ∷ ops) 0 (load files codec path d) false [] b f
          (omega arith) in
      let (d', r, g, end) =
        finish_bulk_end fuel now uuid path call_id (b + length (op ∷ ops)) d q fine in
      (
        d',
        r,
        rw (legacy_bulk, given, legacy_bulk, e, g) refl,
        subst (λ l. BulkEnd files codec call_id path l d d' r) (sym e) end,
      )
