-- ===== src/Metrics/Registration.antt =====
-- `Register` of service_go/metrics/metrics.go on a registry, as Prometheus documents it.
use mathlib.Core.Path.{subst}
use ai_gateway_monitor.Common.{
  ℕ, ◌≡◌, refl, sym, ap, ◌∙◌, inl, inr, Bool, true, false, ◌||◌, Bool-cases, String, List, [], ◌∷◌,
  map, All, str_eq, eq_iff, arith,
}
use ai_gateway_monitor.Metrics.Validity.{is_valid, register_valid}
use ai_gateway_monitor.Metrics.{Instrument, http_requests_total, register}

-- A registry in a state of type `S`: whether a name is taken by one of its instruments, the state
-- with one instrument more, and `MustRegister`, which tells whether it returns, or panics.
pub record Registry (S : Type 0) : Type 0 where
  pub taken : S → String → Bool
  pub added : Instrument → S → S
  pub must_register : List Instrument → S → Bool × S

-- `MustRegister` registers one instrument after the other and panics at the first error; what is
-- assumed of success is for instruments with valid names. An instrument without constant labels
-- clashes with another one exactly if they have one name.
pub record IsDocumented {S : Type 0} (r : Registry S) : Type 0 where
  pub nothing : (s : S) → r.must_register [] s ≡ (true, s)
  pub panics :
      (s : S) (i : Instrument) (rest : List Instrument)
      → r.taken s i.name ≡ true
      → r.must_register (i ∷ rest) s ≡ (false, s)
  pub goes_on :
      (s : S) (i : Instrument) (rest : List Instrument)
      → is_valid i ≡ true
      → r.taken s i.name ≡ false
      → r.must_register (i ∷ rest) s ≡ r.must_register rest (r.added i s)
  pub taken-added :
      (s : S) (i : Instrument) (name : String)
      → r.taken (r.added i s) name ≡ (str_eq i.name name || r.taken s name)

-- The metrics of the gateway, from the table in README.md.
abbrev pub metric_names : List String
metric_names =
    "http_requests_total" ∷ "http_request_duration_seconds" ∷ "grpc_request_duration_seconds"
    ∷ "ai_generated_tokens_total" ∷ "ai_generation_duration_seconds" ∷ []

abbrev AllValid : List Instrument → Type 0
AllValid = All λ i. is_valid i ≡ true

-- None of the names is this one.
abbrev pub Misses : List String → String → Type 0
Misses names name = All (λ other. str_eq other name ≡ false) names

abbrev Distinct : List String → Type 0
Distinct [] = Unit
Distinct (name ∷ names) = All (λ other. str_eq name other ≡ false) names × Distinct names

zip_All :
    {P Q R : String → Type 0} (xs : List String)
    → ((x : String) → P x → Q x → R x)
    → All P xs
    → All Q xs
    → All R xs
zip_All [] f h k = tt
zip_All (x ∷ xs) f h k = (f x h.0 k.0, zip_All xs f h.1 k.1)

module _ {S : Type 0} (r : Registry S) where
  -- `Register`
  pub register_on : List ℕ → S → Bool × S
  register_on def_buckets = r.must_register (register def_buckets)

  abbrev pub AllFree : S → List String → Type 0
  AllFree s = All λ name. r.taken s name ≡ false

  -- What becomes of a registration under some names: all of them were free, and they, and no
  -- others, are taken from then on; or one of them was not free, and it panics.
  pub data Registers (names : List String) (s : S) : Bool × S → Type 0 where
    returned :
        (s' : S)
        → AllFree s names
        → All (λ name. r.taken s' name ≡ true) names
        → ((name : String) → Misses names name → r.taken s' name ≡ r.taken s name)
        → Registers names s (true, s')
    panicked : (s' : S) → ¬ (AllFree s names) → Registers names s (false, s')

str_eq-sym : (s t : String) → str_eq s t ≡ false → str_eq t s ≡ false
str_eq-sym s t apart = elim (Bool-cases (str_eq t s)) [
  | inl same ↦ absurd (let one = (eq_iff s t).1 (sym ((eq_iff t s).0 same)) in cc)
  | inr other ↦ other
]

turned :
    (name : String) (names : List String)
    → All (λ other. str_eq name other ≡ false) names
    → Misses names name
turned name [] apart = tt
turned name (other ∷ names) (here, rest) = (str_eq-sym name other here, turned name names rest)

module _ {S : Type 0} (r : Registry S) (d : IsDocumented r) where
  Registers-cons :
      (s : S) (i : Instrument) (names : List String) (p : Bool × S)
      → All (λ other. str_eq i.name other ≡ false) names
      → r.taken s i.name ≡ false
      → Registers r names (r.added i s) p
      → Registers r (i.name ∷ names) s p
  Registers-cons s i names p apart free (returned s' frees takens others) =
      returned s'
        (free, zip_All names (λ n other was. ground (arith, d.taken-added s i n)) apart frees)
        (
          others i.name (turned i.name names apart)
              ∙ d.taken-added s i i.name
              ∙ (ground (arith, eq_iff i.name i.name)),
          takens,
        )
        (λ name misses. others name misses.1 ∙ (ground (arith, d.taken-added s i name, misses)))
  Registers-cons s i names p apart free (panicked s' busy) = panicked s' (λ frees.
      busy (zip_All names (λ n other was. ground (arith, d.taken-added s i n)) apart frees.1))

  must_register-Registers :
      (s : S) (instruments : List Instrument)
      → AllValid instruments
      → Distinct (map (λ i. i.name) instruments)
      → Registers r (map (λ i. i.name) instruments) s (r.must_register instruments s)
  must_register-Registers s [] valid apart =
      subst (λ p. Registers r [] s p) (sym (d.nothing s)) (returned s tt tt (λ name _. refl))
  must_register-Registers s (i ∷ rest) (ok, valid) (others, apart) =
      elim (Bool-cases (r.taken s i.name)) [
        | inl clash ↦
            subst (λ p. Registers r (map (λ i. i.name) (i ∷ rest)) s p)
              (sym (d.panics s i rest clash)) (panicked s (λ frees. let free = frees.0 in cc))
        | inr free ↦
            subst (λ p. Registers r (map (λ i. i.name) (i ∷ rest)) s p)
              (sym (d.goes_on s i rest ok free))
              (Registers-cons s i (map (λ i. i.name) rest) (r.must_register rest (r.added i s))
                others free (must_register-Registers (r.added i s) rest valid apart))
      ]

  taken-must_register :
      (s : S) (name : String) (instruments : List Instrument)
      → AllValid instruments
      → r.taken s name ≡ true
      → r.taken (r.must_register instruments s).1 name ≡ true
  taken-must_register s name [] valid h = rw (d.nothing s) h
  taken-must_register s name (i ∷ rest) (ok, valid) h = elim (Bool-cases (r.taken s i.name)) [
    | inl clash ↦ rw (d.panics s i rest clash) h
    | inr free ↦
        rw (d.goes_on s i rest ok free) (
          taken-must_register (r.added i s) name rest valid
            (ground (arith, d.taken-added s i name)))
  ]

  -- Once `MustRegister` was called with an instrument in front, another call with it panics.
  again_panics :
      (s : S) (i : Instrument) (rest rest' : List Instrument)
      → AllValid (i ∷ rest)
      → (r.must_register (i ∷ rest') (r.must_register (i ∷ rest) s).1).0 ≡ false
  again_panics s i rest rest' (ok, valid) =
      ap (λ x. x.0)
        (d.panics (r.must_register (i ∷ rest) s).1 i rest' (elim (Bool-cases (r.taken s i.name)) [
          | inl clash ↦ rw (d.panics s i rest clash) clash
          | inr free ↦ rw (d.goes_on s i rest ok free) (
              taken-must_register (r.added i s) i.name rest valid (
                d.taken-added s i i.name
                ∙ ap (λ b. b || r.taken s i.name) ((eq_iff i.name i.name).1 refl)))
        ]))

  -- On a registry that keeps its documented contract: Register returns if the names of the
  -- documented five metrics are free, and then they, and no other names, are taken from then on;
  -- otherwise it panics. A second call panics in any case.
  pub register_on-Registers :
      (def_buckets : List ℕ) (s : S)
      → Registers r metric_names s (register_on r def_buckets s)
        × ((register_on r def_buckets (register_on r def_buckets s).1).0 ≡ false)
  unfolding register_on
  register_on-Registers def_buckets s = (
    must_register-Registers s (register def_buckets) (register_valid def_buckets) (ground arith),
    again_panics s http_requests_total _ _ (register_valid def_buckets),
  )
