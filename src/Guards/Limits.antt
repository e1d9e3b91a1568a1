-- ===== src/Guards/Limits.antt =====
-- How many requests of one client pass.
use offimesh.Prelude.{
  ℕ, suc, ◌-◌, ◌≡◌, refl, ◌∙◌, Bool, true, false, leb, ◌==◌, if◌then◌else◌, Option, some, List, [],
  ◌∷◌, All, length, arith, Bool-cases, inl, inr,
}
use offimesh.Guards.{
  Counters, RateKey, rate_key, api, ForwardedHeader, no_header, empty_header, entries, HttpRequest,
  RateLimit, client_ip, forwarded_or, peer, Passage, uncounted, passed, too_many_requests,
  increment_rate_limit, count_request, dispatch_on, dispatch,
}

-- INCR counts a key up from what it holds and answers the new value, and EXPIRE leaves the value.
pub record IsCounting {C : Type 0} (counters : Counters C) (key : RateKey) : Type 0 where
  pub value : C → ℕ
  pub answers : (c : C) → (counters.incr key c).0 ≡ suc (value c)
  pub counts : (c : C) → value (counters.incr key c).1 ≡ suc (value c)
  pub keeps : (window : ℕ) (c : C) → value (counters.expire key window c) ≡ value c

abbrev pub is_passed : Passage → Bool
is_passed (passed _) = true
is_passed uncounted = true
is_passed too_many_requests = false

-- How many requests pass, one after the other.
unfoldable pub count_passed : {C : Type 0} → Counters C → RateLimit → List HttpRequest → C → ℕ
count_passed counters limit [] c = 0
count_passed counters limit (r ∷ rs) c =
    let (p, c') = dispatch counters limit r c in
    let rest = count_passed counters limit rs c' in if is_passed p then suc rest else rest

-- The address is the first entry of X-Forwarded-For, or the peer's where that header is missing or
-- empty.
pub data IsAddress (ip : ℕ) : ForwardedHeader → Option ℕ → Type 0 where
  by_header : {host : Option ℕ} {rest : List ℕ} → IsAddress ip (entries ip rest) host
  by_peer : IsAddress ip no_header (some ip)
  by_peer_of_empty : IsAddress ip empty_header (some ip)

-- A request for the route, from the address.
pub record IsFrom (ip p : ℕ) (r : HttpRequest) : Type 0 where
  pub route : r.path ≡ api p
  pub address : IsAddress ip r.forwarded r.client_host

address-found :
    (ip : ℕ) (h : ForwardedHeader) (host : Option ℕ)
    → IsAddress ip h host
    → forwarded_or h (peer host) ≡ ip
address-found ip _ _ by_header = refl
address-found ip _ _ by_peer = refl
address-found ip _ _ by_peer_of_empty = refl

client_ip-IsFrom : (ip p : ℕ) (r : HttpRequest) → IsFrom ip p r → client_ip r ≡ ip
client_ip-IsFrom ip p r h = address-found ip r.forwarded r.client_host h.address

module _ {C : Type 0} (counters : Counters C) (limit : RateLimit) (ip p : ℕ)
    (k : IsCounting counters (rate_key ip p)) where
  dispatch-IsFrom :
      (r : HttpRequest) (c : C)
      → IsFrom ip p r
      → dispatch counters limit r c ≡ count_request counters limit (rate_key ip p) c
  unfolding dispatch dispatch_on
  dispatch-IsFrom r c h = rw h.route (rw (client_ip-IsFrom ip p r h) refl)

  count_request-value :
      (c : C) → k.value (count_request counters limit (rate_key ip p) c).1 ≡ suc (k.value c)
  unfolding count_request increment_rate_limit
  count_request-value c = elim (Bool-cases ((counters.incr (rate_key ip p) c).0 == 1)) [
    | inl first ↦
        rw first (k.keeps limit.window_seconds (counters.incr (rate_key ip p) c).1 ∙ k.counts c)
    | inr later ↦ rw later (k.counts c)
  ]

  count_request-passed :
      (c : C)
      → is_passed (count_request counters limit (rate_key ip p) c).0
        ≡ leb (suc (k.value c)) limit.requests_per_minute
  unfolding count_request increment_rate_limit
  count_request-passed c = rw (k.answers c) (ground arith)

  abbrev room : C → ℕ
  room c = limit.requests_per_minute - k.value c

  -- One request more.
  least_step :
      (b : Bool) (l v v' n rest : ℕ)
      → b ≡ leb (suc v) l
      → v' ≡ suc v
      → rest ≡ (if leb n (l - v') then n else l - v')
      → (if b then suc rest else rest) ≡ (if leb (suc n) (l - v) then suc n else l - v)
  least_step b l v v' n rest e f g = ground arith

  count_passed-least :
      (rs : List HttpRequest) (c : C)
      → All (IsFrom ip p) rs
      → count_passed counters limit rs c ≡ (if leb (length rs) (room c) then length rs else room c)
  unfolding count_passed
  count_passed-least [] c h = ground arith
  count_passed-least (r ∷ rs) c h =
      let c' = (count_request counters limit (rate_key ip p) c).1 in
      rw (dispatch-IsFrom r c h.0) (
        least_step (is_passed (count_request counters limit (rate_key ip p) c).0)
          limit.requests_per_minute (k.value c) (k.value c') (length rs)
          (count_passed counters limit rs c') (count_request-passed c) (count_request-value c)
          (count_passed-least rs c' h.1))

  -- Of the requests of one address for one route that arrive while Redis counts their key from 0 and
  -- does not drop it, as many pass as the limit says, and all of them if there are no more; the
  -- address of a request is the first entry of its X-Forwarded-For, whatever its peer, and only
  -- without that header, or with an empty one, the address of the peer.
  pub rate_limit-passes :
      (rs : List HttpRequest) (c : C)
      → All (IsFrom ip p) rs
      → k.value c ≡ 0
      → count_passed counters limit rs c ≡ (
          if leb (length rs) limit.requests_per_minute
          then length rs
          else limit.requests_per_minute)
  rate_limit-passes rs c h e = count_passed-least rs c h ∙ rw e (ground arith)
