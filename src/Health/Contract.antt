-- ===== src/Health/Contract.antt =====
-- The behaviour that the comment of `Readyz` lists, as a relation, and its agreement with the code.
use ai_gateway_monitor.Http.Counting.{http_timings, counted, calls, grpc_timings}
use mathlib.Core.Path.{subst}
use ai_gateway_monitor.Common.{
  ℕ, ◌≡◌, ◌≢◌, ◌⊎◌, inl, inr, ◌↔◌, refl, String, Option, none, some, [], ◌∷◌, ◌==◌, arith,
  Bool-cases,
}
use ai_gateway_monitor.Http.{Json, str, obj, member, end, respond}
use ai_gateway_monitor.Health.{Connectivity, ConnStateProvider, report, readyz}

abbrev pub state_body : String → String → Json
state_body status state = obj (member "status" (str status) (member "grpc_state" (str state) end))

module _ (k : Connectivity) {S : Type 0} (p : ConnStateProvider S) where
  -- Connection, HTTP status, body, and the connection afterwards.
  pub data Reports : Option S → ℕ → Json → Option S → Type 0 where
    not_configured :
        Reports none 503
          (obj (
            member "status"
              (str "not ready")
              (member "reason" (str "grpc connection not configured") end)))
          none
    kicked :
        (s : S)
        → p.get_state s ≡ k.idle
        → Reports
            (some s)
            503
            (state_body "not ready" (k.text (p.get_state s)))
            (some (p.connect s))
    waiting :
        (s : S)
        → p.get_state s ≢ k.idle
        → p.get_state s ≢ k.ready
        → Reports (some s) 503 (state_body "not ready" (k.text (p.get_state s))) (some s)
    is_ready :
        (s : S)
        → p.get_state s ≡ k.ready
        → Reports (some s) 200 (state_body "ready" (k.text (p.get_state s))) (some s)

  module _ (differ : k.idle ≢ k.ready) where
    Reports-readyz :
        {conn conn' : Option S} {status : ℕ} {body : Json}
        → Reports conn status body conn'
        → readyz k p conn ≡ (respond status body ∷ [], conn')
    unfolding readyz report
    Reports-readyz not_configured = refl
    Reports-readyz (kicked s h) = ground arith
    Reports-readyz (waiting s h h') = ground arith
    Reports-readyz (is_ready s h) = ground arith

    equal_or_not : (a b : ℕ) → (a ≡ b) ⊎ (a ≢ b)
    equal_or_not a b = omega arith

    -- Every connection has a row.
    readyz-Reports :
        (conn : Option S)
        → (status : ℕ) × (body : Json) × (conn' : Option S) × Reports conn status body conn'
    readyz-Reports none = (_, _, _, not_configured)
    readyz-Reports (some s) = elim (equal_or_not (p.get_state s) k.idle) [
      | inl is_idle ↦ (_, _, _, kicked s is_idle)
      | inr not_idle ↦ elim (equal_or_not (p.get_state s) k.ready) [
        | inl up ↦ (_, _, _, is_ready s up)
        | inr not_ready ↦ (_, _, _, waiting s not_idle not_ready)
      ]
    ]

    same_row :
        {conn kept kept' : Option S} {status status' : ℕ} {body body' : Json}
        → Reports conn status body kept
        → status ≡ status'
        → body ≡ body'
        → kept ≡ kept'
        → Reports conn status' body' kept'
    same_row {conn} {kept} {kept'} {status} {status'} {body} {body'} row a b c =
        subst (λ x. Reports conn status' body' x) c
          (subst (λ x. Reports conn status' x kept) b (subst (λ x. Reports conn x body kept) a row))

    -- Provided that the states Idle and Ready are different: `Readyz` gives one response, the one
    -- that its table has for the state of the connection, and leaves the connection as the table
    -- says, having called `Connect` for an idle channel and for no other.
    pub readyz_iff_Reports :
        (conn : Option S) (status : ℕ) (body : Json) (conn' : Option S)
        → Reports conn status body conn' ↔ (readyz k p conn ≡ (respond status body ∷ [], conn'))
    readyz_iff_Reports conn status body conn' = (
      Reports-readyz,
      λ same.
          let (status', body', kept, row) = readyz-Reports conn in
          let found = Reports-readyz row in same_row row (cc) (cc) (cc),
    )

  -- A readiness probe calls nothing.
  pub readyz_uncalled :
      (conn : Option S) → (calls (readyz k p conn).0 ≡ []) × (grpc_timings (readyz k p conn).0 ≡ [])
  unfolding readyz report
  readyz_uncalled none = (refl, refl)
  readyz_uncalled (some s) = elim (Bool-cases (p.get_state s == k.ready)) [
    | inl up ↦ rw up (refl, refl)
    | inr not_up ↦ rw not_up (refl, refl)
  ]

  -- A readiness probe is neither timed nor counted.
  pub readyz_unmeasured :
      (conn : Option S)
      → (http_timings (readyz k p conn).0 ≡ []) × (counted (readyz k p conn).0 ≡ [])
  unfolding readyz report
  readyz_unmeasured none = (refl, refl)
  readyz_unmeasured (some s) = elim (Bool-cases (p.get_state s == k.ready)) [
    | inl up ↦ rw up (refl, refl)
    | inr not_up ↦ rw not_up (refl, refl)
  ]
