-- ===== src/Selector/Picked.antt =====
-- What a plan holds of the endpoints of a document, by the picks of internal/selector/selector.go.
use virtual_cloud_help_servi.Prelude.{
  ℕ, zero, suc, ◌≡◌, ◌∙◌, ap, refl, ◌⊎◌, inl, inr, min, Bool-cases, true, false, not, ◌&&◌, ◌||◌,
  sym, List, [], ◌∷◌, ◌++◌, length, All, map, ok, arith,
}
use mathlib.Core.List.{Perm}
use mathlib.Core.List.Perm
use virtual_cloud_help_servi.Prelude.Text.{Text, text_eq}
use virtual_cloud_help_servi.Prelude.Sort.{sort_by, sort_by-perm, sort_by-All}
use virtual_cloud_help_servi.Prelude.Keyed.{length-sort_by}
use virtual_cloud_help_servi.GoTime.{Instant, zero_instant, is_zero, before}
use virtual_cloud_help_servi.Platform.{Platform}
use virtual_cloud_help_servi.Manifest.Types.{Document, Endpoint, Node, transport_amneziawg}
use virtual_cloud_help_servi.Selector.Candidates.{candidates_in, scan_nodes-active}
use virtual_cloud_help_servi.Selector.{
  Options, Observation, Plan, ScoredCandidate, Scanned, score_of, scan_endpoint, scan_endpoints,
  scan_nodes, score_less, most_diverse, take_out, pick, max_candidates_of, rank,
}

take_out-Perm :
    (index : ℕ) (x : ScoredCandidate) (xs : List ScoredCandidate)
    → Perm (x ∷ xs) ((take_out index x xs).0 ∷ (take_out index x xs).1)
unfolding take_out
take_out-Perm zero x xs = Perm.refl (x ∷ xs)
take_out-Perm (suc index) x [] = Perm.refl (x ∷ [])
take_out-Perm (suc index) x (y ∷ ys) =
    Perm.trans (Perm.cons x (take_out-Perm index y ys))
      (Perm.swap (take_out index y ys).0 x (take_out index y ys).1)

length-take_out :
    (index : ℕ) (x : ScoredCandidate) (xs : List ScoredCandidate)
    → length (take_out index x xs).1 ≡ length xs
unfolding take_out
length-take_out zero x xs = refl
length-take_out (suc index) x [] = refl
length-take_out (suc index) x (y ∷ ys) = omega (arith, length-take_out index y ys)

-- Nothing is picked twice, and what is not picked is left.
pick-Perm :
    (count : ℕ) (active : List ScoredCandidate) (providers : List Text) (asns : List ℕ)
    → (left : List ScoredCandidate) × Perm active (pick count active providers asns ++ left)
unfolding pick
pick-Perm zero active providers asns = (active, Perm.refl active)
pick-Perm (suc count) [] providers asns = ([], Perm.refl [])
pick-Perm (suc count) (x ∷ xs) providers asns =
    let index = most_diverse providers asns x xs in
    let (selected, rest) = take_out index x xs in
    let (left, same) =
      pick-Perm count rest (selected.candidate.provider ∷ providers)
        (selected.candidate.asn ∷ asns) in
    (left, Perm.trans (take_out-Perm index x xs) (Perm.cons selected same))

length-pick :
    (count : ℕ) (active : List ScoredCandidate) (providers : List Text) (asns : List ℕ)
    → length (pick count active providers asns) ≡ min count (length active)
unfolding pick
length-pick zero active providers asns = omega arith
length-pick (suc count) [] providers asns = omega arith
length-pick (suc count) (x ∷ xs) providers asns =
    let index = most_diverse providers asns x xs in
    let (selected, rest) = take_out index x xs in
    omega (
      arith,
      length-pick count rest (selected.candidate.provider ∷ providers)
          (selected.candidate.asn ∷ asns),
      length-take_out index x xs,
    )

module _ (P : ScoredCandidate → Type 0) where
  take_out-All :
      (index : ℕ) (x : ScoredCandidate) (xs : List ScoredCandidate)
      → All P (x ∷ xs)
      → P (take_out index x xs).0 × All P (take_out index x xs).1
  unfolding take_out
  take_out-All zero x xs h = h
  take_out-All (suc index) x [] h = h
  take_out-All (suc index) x (y ∷ ys) (h, k) = let (a, b) = take_out-All index y ys k in (a, (h, b))

  pick-All :
      (count : ℕ) (active : List ScoredCandidate) (providers : List Text) (asns : List ℕ)
      → All P active
      → All P (pick count active providers asns)
  unfolding pick
  pick-All zero active providers asns h = tt
  pick-All (suc count) [] providers asns h = tt
  pick-All (suc count) (x ∷ xs) providers asns h =
      let index = most_diverse providers asns x xs in
      let (selected, rest) = take_out index x xs in
      let (a, b) = take_out-All index x xs h in
      (
        a,
        pick-All count rest (selected.candidate.provider ∷ providers)
            (selected.candidate.asn ∷ asns) b,
      )

  All-snoc :
      (xs : List ScoredCandidate) (x : ScoredCandidate) → All P xs → P x → All P (xs ++ x ∷ [])
  All-snoc [] x h k = (k, tt)
  All-snoc (y ∷ ys) x (h, hs) k = (h, All-snoc ys x hs k)

module _ (observations : Text → Observation) (now : Instant) (options : Options) where
  -- The endpoint is not cooling down, and where UDP is not available it does not need it.
  pub record Eligible (x : ScoredCandidate) : Type 0 where
    pub rested : before now (observations x.candidate.endpoint.id).cooldown_until ≡ false
    pub transport :
        (options.udp_available ≡ true)
        ⊎ (text_eq x.candidate.endpoint.transport transport_amneziawg ≡ false)
    pub scored : x.score ≡ score_of x.candidate.endpoint (observations x.candidate.endpoint.id)

  scan_endpoint-All :
      (node : Node) (endpoint : Endpoint) (scanned : Scanned)
      → All Eligible scanned.active
      → All Eligible (scan_endpoint observations now options node endpoint scanned).active
  unfolding scan_endpoint
  scan_endpoint-All node endpoint scanned h =
      elim (Bool-cases
        (text_eq endpoint.transport transport_amneziawg && not options.udp_available)) [
          | inl e ↦ simp e h
          | inr e ↦ elim (Bool-cases (before now (observations endpoint.id).cooldown_until)) [
            | inl cooling ↦
                elim (Bool-cases (
                  is_zero scanned.retry_at
                  || before (observations endpoint.id).cooldown_until scanned.retry_at)) [
                    | inl r ↦ simp (e, cooling, r) h
                    | inr r ↦ simp (e, cooling, r) h
                  ]
            | inr rested ↦
                simp (e, rested)
                  (All-snoc Eligible scanned.active
                    (record {
                      candidate = record {
                        node_id = node.id;
                        provider = node.provider;
                        asn = node.asn;
                        endpoint = endpoint;
                      };
                      score = score_of endpoint (observations endpoint.id);
                    })
                    h (record { rested = rested; transport = ground arith; scored = refl }))
          ]
        ]

  scan_endpoints-All :
      (node : Node) (endpoints : List Endpoint) (scanned : Scanned)
      → All Eligible scanned.active
      → All Eligible (scan_endpoints observations now options node endpoints scanned).active
  unfolding scan_endpoints
  scan_endpoints-All node [] scanned h = h
  scan_endpoints-All node (endpoint ∷ rest) scanned h =
      scan_endpoints-All node rest (scan_endpoint observations now options node endpoint scanned)
        (scan_endpoint-All node endpoint scanned h)

  scan_nodes-All :
      (nodes : List Node) (scanned : Scanned)
      → All Eligible scanned.active
      → All Eligible (scan_nodes observations now options nodes scanned).active
  unfolding scan_nodes
  scan_nodes-All [] scanned h = h
  scan_nodes-All (node ∷ rest) scanned h =
      scan_nodes-All rest (scan_endpoints observations now options node node.endpoints scanned)
        (scan_endpoints-All node node.endpoints scanned h)

  abbrev scanned_of : Document → Scanned
  scanned_of document =
      scan_nodes observations now options document.nodes
        (record { active = []; retry_at = zero_instant })

  -- What a plan is made of: the picked candidates and those left over.
  pub record IsPlan (document : Document) (plan : Plan) : Type 0 where
    pub picked : List ScoredCandidate
    pub left : List ScoredCandidate
    pub candidates_are : plan.candidates ≡ map (λ (x : ScoredCandidate). x.candidate) picked
    pub each_once : Perm (candidates_in observations now options document.nodes) (picked ++ left)
    pub size :
        length picked
        ≡ min
            (max_candidates_of options)
            (length (candidates_in observations now options document.nodes))
    pub eligible : All Eligible picked

  -- A plan holds candidates of the document, by its nodes and their endpoints: those that are not
  -- cooling down and need no UDP where there is none, each as often as the document has it, and as
  -- many as there are and the options allow.
  pub rank-IsPlan :
      (p : Platform) (document : Document) {plan : Plan}
      → rank p document observations now options ≡ ok plan
      → IsPlan document plan
  unfolding rank
  rank-IsPlan p document {plan} h =
      let s = scanned_of document in
      let all : s.active ≡ candidates_in observations now options document.nodes =
        scan_nodes-active observations now options document.nodes
          (record { active = []; retry_at = zero_instant }) in
      let sorted = sort_by score_less s.active in
      let picked = pick (max_candidates_of options) sorted [] [] in
      let is : record {
        candidates = map (λ (x : ScoredCandidate). x.candidate) picked;
        retry_at = s.retry_at;
      }
          ≡ plan =
        ground arith in
      let (left, same) = pick-Perm (max_candidates_of options) sorted [] [] in
      record {
        picked = picked;
        left = left;
        candidates_are = ap (λ (x : Plan). x.candidates) (sym is);
        each_once = rw (← all) (Perm.trans (Perm.symm (sort_by-perm score_less s.active)) same);
        size =
            length-pick (max_candidates_of options) sorted [] []
            ∙ ap (min (max_candidates_of options)) (length-sort_by score_less s.active)
            ∙ ap (λ (xs : List ScoredCandidate). min (max_candidates_of options) (length xs)) all;
        eligible = pick-All Eligible (max_candidates_of options) sorted [] [] (
            sort_by-All score_less Eligible s.active
              (scan_nodes-All document.nodes (record { active = []; retry_at = zero_instant }) tt));
      }
