-- ===== src/Adapter/Retries.antt =====
-- What a row of rejections gives: the retry budget of the adapter.
use agent_squire.Base.{
  ℕ, suc, ◌+◌, ◌*◌, ◌^◌, ◌%◌, ◌≤◌, ◌<◌, String, List, [], ◌∷◌, length, length-append, All, ltb,
  true, false, ◌≡◌, refl, arith,
}
use agent_squire.Adapter.{
  SquireContextAdapter, ChatMessage, TurnOutcome, retry, failed, reject, message, user, assistant,
}

counted : (n : ℕ) → n + 1 < 2 ^ 32 → (n + 1) % 2 ^ 32 ≡ suc n
counted n h = omega arith

module _ {P V : Type 0} (rejected_json : String → String) where
  -- The rejections of a row of responses, each with its reason.
  abbrev pub reject_all :
      SquireContextAdapter P
      → List (ChatMessage V)
      → List (String × String)
      → SquireContextAdapter P × List (ChatMessage V) × List TurnOutcome
  reject_all a messages [] = (a, messages, [])
  reject_all a messages ((content, reason) ∷ rows) =
      let (a', messages', outcome) = reject rejected_json a messages content reason in
      let (a'', messages'', outcomes) = reject_all a' messages' rows in
      (a'', messages'', outcome ∷ outcomes)

  within :
      (a : SquireContextAdapter P) (messages : List (ChatMessage V)) (content reason : String)
      → a.retry_count < a.max_retries
      → a.max_retries + 1 < 2 ^ 32
      → ((reject rejected_json a messages content reason).2 ≡ retry)
        × ((reject rejected_json a messages content reason).0.retry_count ≡ suc a.retry_count)
        × ((reject rejected_json a messages content reason).0.max_retries ≡ a.max_retries)
        × (length (reject rejected_json a messages content reason).1 ≡ length messages + 2)
  unfolding reject
  within a messages content reason budget small =
      let test : ltb a.max_retries ((a.retry_count + 1) % 2 ^ 32) ≡ false =
        ground (arith, counted a.retry_count (omega arith)) in
      rw (reject, test)
        (
          refl,
          counted a.retry_count (omega arith),
          refl,
          length-append messages
              (message assistant content ∷ message user (rejected_json reason) ∷ []),
        )

  beyond :
      (a : SquireContextAdapter P) (messages : List (ChatMessage V)) (content reason : String)
      → a.retry_count ≡ a.max_retries
      → a.max_retries + 1 < 2 ^ 32
      → ((reject rejected_json a messages content reason).2 ≡ failed reason content)
        × ((reject rejected_json a messages content reason).1 ≡ messages)
  unfolding reject
  beyond a messages content reason spent small =
      let test : ltb a.max_retries ((a.retry_count + 1) % 2 ^ 32) ≡ true =
        ground (arith, counted a.retry_count (omega arith)) in
      rw (reject, test) (refl, refl)

  -- Within the budget each response is to be sent again, and the messages grow by two.
  retried :
      (a : SquireContextAdapter P) (messages : List (ChatMessage V)) (rows : List (String × String))
      → a.retry_count + length rows ≤ a.max_retries
      → a.max_retries + 1 < 2 ^ 32
      → All (λ o. o ≡ retry) (reject_all a messages rows).2
        × ((reject_all a messages rows).0.retry_count ≡ a.retry_count + length rows)
        × ((reject_all a messages rows).0.max_retries ≡ a.max_retries)
        × (length (reject_all a messages rows).1 ≡ length messages + 2 * length rows)
  retried a messages [] budget small = (tt, omega arith, refl, omega arith)
  retried a messages ((content, reason) ∷ rows) budget small =
      let (again, count, most, size) = within a messages content reason (omega arith) small in
      let a' = (reject rejected_json a messages content reason).0 in
      let messages' = (reject rejected_json a messages content reason).1 in
      let (outcomes, count', most', size') =
        retried a' messages' rows (omega (arith, count, most)) (omega (arith, most)) in
      (
        (again, outcomes),
        omega (arith, count, count'),
        omega (arith, most, most'),
        omega (arith, size, size'),
      )

  -- From a count of 0, and with a budget below the largest u32, as many rejected responses as the budget
  -- says are to be sent again, with two messages each; the next one closes the turn with its reason and its
  -- content, and leaves the messages.
  pub reject_budget :
      (a : SquireContextAdapter P) (messages : List (ChatMessage V)) (rows : List (String × String))
      (content reason : String)
      → a.retry_count ≡ 0
      → length rows ≡ a.max_retries
      → a.max_retries + 1 < 2 ^ 32
      → All (λ o. o ≡ retry) (reject_all a messages rows).2
        × (length (reject_all a messages rows).1 ≡ length messages + 2 * a.max_retries)
        × ((reject rejected_json
              (reject_all a messages rows).0
              (reject_all a messages rows).1
              content
              reason).2
            ≡ failed reason content)
        × ((reject rejected_json
              (reject_all a messages rows).0
              (reject_all a messages rows).1
              content
              reason).1
            ≡ (reject_all a messages rows).1)
  reject_budget a messages rows content reason fresh all small =
      let (outcomes, count, most, size) =
        retried a messages rows (omega (arith, fresh, all)) small in
      let (ends, same) =
        beyond (reject_all a messages rows).0 (reject_all a messages rows).1 content reason
          (omega (arith, count, most, fresh, all)) (omega (arith, most)) in
      (outcomes, omega (arith, size, all), ends, same)
