-- ===== src/Nomba/Listing/Tests.antt =====
-- A period of three entries on two pages, the second after a timeout, and a bank whose cursor never
-- ends.
use offimesh.Prelude.{
  ℕ, zero, suc, ◌+◌, ◌<◌, ◌≡◌, refl, pos, Option, none, some, [], ◌∷◌, arith, inl,
}
use offimesh.Exceptions.{Result, ok, err, value_error}
use offimesh.Reconciliation.{NombaTransaction}
use offimesh.Nomba.{default_retries, Response, Answer, responded, timeout_exception, Exchange}
use offimesh.Nomba.Breaker.{new_breaker}
use offimesh.Nomba.Recovery.{Answers}
use offimesh.Nomba.Access.{TokenCache, Site, unreadable}
use offimesh.Nomba.Json.{
  Json, text, array, object, nil, cons, end, field, data_key, results_key, cursor_key, get_or,
  truthy, unwrap, results_of, cursor_of, validate_items, validate_each,
}
use offimesh.Nomba.Resource.{Network}
use offimesh.Nomba.Resource.Ready.{IsReady}
use offimesh.Nomba.Listing.{Query, page_of, list_all_transactions_for_period}
use offimesh.Nomba.Listing.Pages.{attempts, Pages, last, more, list_all-Pages}

abbrev cell : TokenCache (Option ℕ)
cell = record {
  get = λ c. c;
  setex = λ _ token _. some token;
  set = λ token _. some token;
  delete = λ _. none;
}

abbrev site : Site (Option ℕ)
site = record {
  client = record { breaker = new_breaker; sent = 0; slept = 0 };
  cache = some 9;
  fetches = 1;
  bearers = [];
}

site-IsReady : IsReady cell default_retries site
site-IsReady = record {
  token = 9;
  kept = refl;
  real = omega arith;
  fresh = record { closes = refl; empty = refl; patient = omega arith };
}

-- An entry is a text here, and its id is the number of the text.
abbrev entry : ℕ → NombaTransaction
entry id = record { transaction_id = id; merchant_tx_ref = 0; status = 1; amount = pos 100 }

abbrev validate : Json → Result NombaTransaction
validate (text n) = ok (entry n)
validate _ = err value_error

abbrev first_body : Json
first_body = object (
    field data_key
      (object (
        field results_key (array (cons (text 31) (cons (text 32) nil)))
          (field cursor_key (text 700) end)))
      end)

abbrev second_body : Json
second_body = object (
    field data_key
      (object (field results_key (array (cons (text 33) nil)) (field cursor_key (text 0) end))) end)

-- The body of an answer stands for its text.
abbrev json : Response → Result Json
json r = if_first r.message
  where
    if_first : ℕ → Result Json
    if_first zero = ok first_body
    if_first (suc n) = ok second_body

abbrev reply : ℕ → Answer
reply n = responded (record { status_code = 200; retry_after = none; message = n })

abbrev at_time : ℕ → Answer → Exchange
at_time t a = record { asked_at = t; answered_at = t + 10; answer = a; jitter = 1200 }

abbrev late : ℕ → Exchange
late zero = at_time 2000 timeout_exception
late (suc n) = at_time 4000 (reply 1)

abbrev two_pages : ℕ → Network Query
two_pages zero = record { endpoint = unreadable; exchanges = λ _ _. at_time 1000 (reply 0) }
two_pages (suc n) = record { endpoint = unreadable; exchanges = λ _. late }

abbrev first_reply : Response
first_reply = record { status_code = 200; retry_after = none; message = 0 }

abbrev second_reply : Response
second_reply = record { status_code = 200; retry_after = none; message = 1 }

first_page : page_of validate first_body ≡ ok (entry 31 ∷ entry 32 ∷ [], some (text 700))
unfolding page_of unwrap results_of cursor_of get_or truthy validate_each validate_items
first_page = refl

second_page : page_of validate second_body ≡ ok (entry 33 ∷ [], none)
unfolding page_of unwrap results_of cursor_of get_or truthy validate_each validate_items
second_page = refl

abbrev first_answers : Answers default_retries (attempts 5 6 two_pages 0 none) first_reply
first_answers = record {
  failed = 0;
  few = omega arith;
  passing = λ i h. absurd (omega (arith, h));
  answered = refl;
  succeeds = refl;
}

late-passes : (i : ℕ) → i < 1 → ((late i).answer ≡ timeout_exception)
late-passes zero h = refl
late-passes (suc i) h = absurd (omega (arith, h))

abbrev second_answers :
    Answers default_retries (attempts 5 6 two_pages 1 (some (text 700))) second_reply
second_answers = record {
  failed = 1;
  few = omega arith;
  passing = λ i h. inl (late-passes i h);
  answered = refl;
  succeeds = refl;
}

served :
    Pages default_retries json validate 5 6 two_pages 0 none
      (entry 31 ∷ entry 32 ∷ entry 33 ∷ [])
      2
      3
served = more first_answers refl first_page (last second_answers refl second_page)

list_all-Pages_example :
    let (result, s') =
      list_all_transactions_for_period cell default_retries json validate 8 5 6 two_pages site in
    (result ≡ ok (some (entry 31 ∷ entry 32 ∷ entry 33 ∷ [])))
    × (s'.client.sent ≡ 0 + 3)
    × (s'.fetches ≡ 1)
list_all-Pages_example =
    list_all-Pages cell default_retries json validate 5 6 two_pages
      (entry 31 ∷ entry 32 ∷ entry 33 ∷ []) 2 3 8 site served (omega arith) site-IsReady
