-- ===== src/Query/Finish.antt =====
-- A query of `QueryContext` that succeeds at the service: go/connection.go.
use athenadriver.Base.{
  suc, Bool, List, [], ◌∷◌, ◌++◌, Option, some, Bytes, length, ◌≡◌, ap, ◌∙◌, replicate,
}
use athenadriver.Config.Flags.{is_money_wise}
use athenadriver.Config.{Config, get_service_limit_override}
use athenadriver.Errors.{returned}
use athenadriver.Query.Wait.{AllWaiting, pending-continues}
use athenadriver.Query.{
  Client, poll, start, fetch, after_calls, ◌>>=◌, Execution, Poll, StartInput, rows, plain,
  succeeded, wait, fetch_rows, start_query, start_answer,
}
use athenadriver.Rows.Page.{Rows, new_rows}
use athenadriver.ServiceLimit.{ServiceLimitOverride}

wait-succeeded :
    (money : Bool) (client : Client) (limits : Option ServiceLimitOverride) (qid : Bytes)
    (before : List Poll) (p : Poll) (x : Execution) (ps : List Poll)
    → AllWaiting limits before
    → p.answer ≡ returned x
    → x.state ≡ succeeded
    → wait money client limits qid (before ++ p ∷ ps)
      ≡ (replicate (suc (length before)) (poll qid), returned tt)
unfolding wait
wait-succeeded money client limits qid [] p x ps w a s = rw (a, s)
wait-succeeded money client limits qid (b ∷ before) p x ps (y, a', d', t, rest) a s =
    pending-continues money client limits qid b (before ++ p ∷ ps) y a' d' t
    ∙ ap (after_calls (poll qid ∷ []))
        (wait-succeeded money client limits qid before p x ps rest a s)

module _ (c : Config) (client : Client) (input : StartInput) (qid : Bytes) (r : Rows) where
  fetch_rows-returned :
      new_rows client.get_location client.get_query_results qid ≡ returned r
      → fetch_rows client qid ≡ (fetch qid ∷ [], returned (rows r))
  unfolding fetch_rows
  fetch_rows-returned h = rw h

  -- A query that is started, and that the service finds under way a number of times, in time and
  -- with the context not done, and then succeeded, ends: `QueryContext` returns its rows, if the
  -- result can be read, after one start, one poll for each answer, and one fetch.
  pub start_query-returned :
      (before : List Poll) (p : Poll) (x : Execution) (ps : List Poll)
      → client.start_query_execution input ≡ returned qid
      → client.polls qid ≡ before ++ p ∷ ps
      → AllWaiting (some (get_service_limit_override c)) before
      → p.answer ≡ returned x
      → x.state ≡ succeeded
      → new_rows client.get_location client.get_query_results qid ≡ returned r
      → start_query c client plain input ≡ (
        start input ∷ (replicate (suc (length before)) (poll qid) ++ fetch qid ∷ []),
        returned (rows r),
      )
  unfolding start_query
  start_query-returned before p x ps s l w a d n =
      let limits = some (get_service_limit_override c) in
      ap (λ o. after_calls (start input ∷ []) (start_answer c client plain o)) s
      ∙ ap
          (λ qs.
            after_calls (start input ∷ [])
              (wait (is_money_wise c) client limits qid qs >>= λ _. fetch_rows client qid))
          l
      ∙ ap (λ r. after_calls (start input ∷ []) (r >>= λ _. fetch_rows client qid))
          (wait-succeeded (is_money_wise c) client limits qid before p x ps w a d)
      ∙ ap
          (λ r.
            after_calls (start input ∷ [])
              (after_calls (replicate (suc (length before)) (poll qid)) r))
          (fetch_rows-returned n)
