-- ===== src/Api/Flow.antt =====
-- The requests in flight, along any sequence of arrivals and ends.
use virtual_cloud_help_servi.Prelude.{
  ℕ, suc, ◌+◌, ◌≤◌, ◌≡◌, refl, true, false, List, [], ◌∷◌, Option, none, some, arith, length, ◌⊎◌,
  inl, inr, ◌∙◌, Option-cases,
}
use virtual_cloud_help_servi.Prelude.Text.{Text}
use virtual_cloud_help_servi.Http.{HttpRequest, HttpResponse}
use virtual_cloud_help_servi.Manifest.Types.{Envelope}
use virtual_cloud_help_servi.Api.{
  Server, InFlight, Event, arrive, finish, handle, enter, acquire, arrival, take_out_number,
  route_of, Route, new_handler, answer_of, to_health, to_ready, to_manifest, to_admin, to_nothing,
  health, not_found_answer,
}

-- How many answers a step gives.
abbrev pub given : Option HttpResponse → ℕ
given none = 0
given (some answer) = 1

-- How many requests arrive with an event.
abbrev pub arrivals : Event → ℕ
arrivals (arrive number request) = 1
arrivals (finish number issued checks) = 0

-- What one event does: the limit stays, the slots are kept to, and no request is lost.
pub record Keeps (before after : Server) (arrived : ℕ) (answer : Option HttpResponse) : Type 0 where
  pub same_limit : after.max_in_flight ≡ before.max_in_flight
  pub bounded :
      length before.in_flight ≤ before.max_in_flight → length after.in_flight ≤ before.max_in_flight
  pub conserved : length before.in_flight + arrived ≡ length after.in_flight + given answer

enter-Keeps :
    (server : Server) (entering : InFlight)
    → let out = enter server entering in Keeps server out.0 1 out.1
unfolding enter acquire
enter-Keeps server entering = record {
  same_limit = ground arith;
  bounded = λ h. ground arith;
  conserved = ground arith;
}

at_once : (server : Server) (answer : HttpResponse) → Keeps server server 1 (some answer)
at_once server answer = record { same_limit = refl; bounded = λ h. h; conserved = refl }

arrival-Keeps :
    (admin : Option (HttpRequest → HttpResponse)) (server : Server) (number : ℕ)
    (request : HttpRequest)
    → let out = arrival admin server number request in Keeps server out.0 1 out.1
unfolding arrival
arrival-Keeps none server number request = by_route (route_of false request.path)
  where
    by_route :
        (route : Route)
        → (let out : Server × Option HttpResponse = elim route [
          | to_health ↦ (server, some (health request))
          | to_ready ↦ enter server (record { number = number; request = request; is_ready = true })
          | to_manifest ↦
              enter server (record { number = number; request = request; is_ready = false })
          | to_admin ↦ (server, some not_found_answer)
          | to_nothing ↦ (server, some not_found_answer)
        ] in
            Keeps server out.0 1 out.1)
    by_route to_health = at_once server (health request)
    by_route to_ready = enter-Keeps server _
    by_route to_manifest = enter-Keeps server _
    by_route to_admin = at_once server not_found_answer
    by_route to_nothing = at_once server not_found_answer
arrival-Keeps (some admin) server number request = by_route (route_of true request.path)
  where
    by_route :
        (route : Route)
        → (let out : Server × Option HttpResponse = elim route [
          | to_health ↦ (server, some (health request))
          | to_ready ↦ enter server (record { number = number; request = request; is_ready = true })
          | to_manifest ↦
              enter server (record { number = number; request = request; is_ready = false })
          | to_admin ↦ (server, some (admin request))
          | to_nothing ↦ (server, some not_found_answer)
        ] in
            Keeps server out.0 1 out.1)
    by_route to_health = at_once server (health request)
    by_route to_ready = enter-Keeps server _
    by_route to_manifest = enter-Keeps server _
    by_route to_admin = at_once server (admin request)
    by_route to_nothing = at_once server not_found_answer

length-take_out_number :
    (number : ℕ) (xs : List InFlight) {holder : InFlight} {others : List InFlight}
    → take_out_number number xs ≡ some (holder, others)
    → length xs ≡ suc (length others)
unfolding take_out_number
length-take_out_number number [] {holder} {others} h = absurd (ground arith)
length-take_out_number number (x ∷ xs) {holder} {others} h =
    elim (Option-cases (take_out_number number xs)) [
      | inl missing ↦ ground (arith, missing)
      | inr (found, e) ↦
          ground
            (arith, e, length-take_out_number number xs {holder = found.0} {others = found.1} e)
    ]

handle-Keeps :
    (encode : Envelope → Text) (admin : Option (HttpRequest → HttpResponse)) (server : Server)
    (event : Event)
    → let out = handle encode admin server event in Keeps server out.0 (arrivals event) out.1
unfolding handle
handle-Keeps encode admin server (arrive number request) = arrival-Keeps admin server number request
handle-Keeps encode admin server (finish number issued checks) =
    by_holder (take_out_number number server.in_flight) refl
  where
    by_holder :
        (found : Option (InFlight × List InFlight))
        → take_out_number number server.in_flight ≡ found
        → (let out : Server × Option HttpResponse = elim found [
          | none ↦ (server, none)
          | some (holder, others) ↦
              (record server { in_flight = others }, some (answer_of encode holder issued checks))
        ] in
            Keeps server out.0 0 out.1)
    by_holder none e = record { same_limit = refl; bounded = λ h. h; conserved = refl }
    by_holder (some (holder, others)) e =
        let shorter =
          length-take_out_number number server.in_flight {holder = holder} {others = others} e in
        record { same_limit = refl; bounded = λ h. omega arith; conserved = omega arith }

-- The events in their order, with the number of answers they gave.
unfoldable pub handle_all :
    (Envelope → Text) → Option (HttpRequest → HttpResponse) → Server → List Event → Server × ℕ
handle_all encode admin server [] = (server, 0)
handle_all encode admin server (event ∷ rest) =
    let out = handle encode admin server event in
    let more = handle_all encode admin out.0 rest in (more.0, given out.1 + more.1)

abbrev pub arrivals_of : List Event → ℕ
arrivals_of [] = 0
arrivals_of (event ∷ rest) = arrivals event + arrivals_of rest

handle_all-keeps :
    (encode : Envelope → Text) (admin : Option (HttpRequest → HttpResponse)) (server : Server)
    (events : List Event)
    → length server.in_flight ≤ server.max_in_flight
    → let out = handle_all encode admin server events in
      (out.0.max_in_flight ≡ server.max_in_flight)
      × (length out.0.in_flight ≤ server.max_in_flight)
      × (length server.in_flight + arrivals_of events ≡ length out.0.in_flight + out.1)
unfolding handle_all
handle_all-keeps encode admin server [] h = (refl, h, refl)
handle_all-keeps encode admin server (event ∷ rest) h =
    let k = handle-Keeps encode admin server event in
    let s = (handle encode admin server event).0 in
    let (limit, bound, count) =
      handle_all-keeps encode admin s rest (omega (arith, k.same_limit, k.bounded h)) in
    (limit ∙ k.same_limit, omega (arith, bound, k.same_limit), omega (arith, count, k.conserved))

-- However requests arrive and end, at most the configured number, or one where that is less, are
-- in flight, and each request that arrived has been answered or is in flight.
pub handle_all-in_flight :
    (encode : Envelope → Text) (admin : Option (HttpRequest → HttpResponse)) (max_in_flight : ℕ)
    (events : List Event)
    → let out = handle_all encode admin (new_handler max_in_flight) events in
      ((length out.0.in_flight ≤ max_in_flight) ⊎ (length out.0.in_flight ≤ 1))
      × (arrivals_of events ≡ length out.0.in_flight + out.1)
unfolding new_handler
handle_all-in_flight encode admin max_in_flight events =
    let (limit, bound, count) =
      handle_all-keeps encode admin (new_handler max_in_flight) events (omega arith) in
    (ground (arith, bound), omega (arith, count))
