-- ===== src/Configurator/Bounds.antt =====
-- On the numbers that instanceiterator/configurator.go lets through.
use Prim.Native.Nat.{◌%◌, ◌^◌}
use on_demand_service_broker.Prelude.{
  ℕ, ◌*◌, ◌<◌, ◌≤◌, ◌≡◌, refl, sym, ap, subst, ◌∙◌, String, zero, suc, Result, ok, err, panic,
  arith,
}
use on_demand_service_broker.Prelude.Int.{ℤ, pos, negsuc}
use on_demand_service_broker.Configurator.{
  InstanceIteratorConfig, Configured, signed, nanoseconds, positive, and_then, not_negative,
  broker_services, polling_interval, attempt_interval, attempt_limit, max_in_flight, canaries,
  new_configurator,
}

-- Up to this number of seconds, a duration does not wrap round.
abbrev pub longest : ℕ
longest = 9223372036

nanoseconds_lem : (n : ℕ) → n ≤ longest → nanoseconds n ≡ pos (n * 1000000000)
unfolding nanoseconds signed
nanoseconds_lem n h =
    let small : (n * 1000000000) % 2 ^ 64 ≡ n * 1000000000 = omega arith in rw small (ground arith)

and_then-ok :
    {A B : Type 0} (r : Result A) (f : A → Result B) (b : B)
    → and_then r f ≡ ok b
    → (a : A) × (r ≡ ok a) × (f a ≡ ok b)
and_then-ok (ok a) f b e = (a, refl, e)
and_then-ok (err x) f b e = cc
and_then-ok panic f b e = cc

positive-ok : (message : String) (z : ℤ) (n : ℕ) → positive message z ≡ ok n → (z ≡ pos n) × (0 < n)
positive-ok message (pos zero) n e = cc
positive-ok message (pos (suc k)) n e =
    let same : suc k ≡ n = cc in (ap (λ m. pos m) same, omega (arith, same))
positive-ok message (negsuc k) n e = cc

not_negative-ok : (z : ℤ) (n : ℕ) → not_negative z ≡ ok n → z ≡ pos n
not_negative-ok (pos k) n e = let same : k ≡ n = cc in ap (λ m. pos m) same
not_negative-ok (negsuc k) n e = cc

-- A number of seconds of the configuration, above zero, and the duration that is kept.
abbrev pub Lasts : ℤ → ℤ → Type 0
Lasts configured kept = (n : ℕ) × (configured ≡ pos n) × (0 < n) × (kept ≡ pos (n * 1000000000))

-- A number of the configuration above zero, and kept as it is.
abbrev pub IsPositive : ℤ → ℕ → Type 0
IsPositive configured kept = (configured ≡ pos kept) × (0 < kept)

module _ (append_certs : Result (Unit {0})) (conf : InstanceIteratorConfig) where
  -- What is kept of a configuration that is let through.
  pub record IsKept (c : Configured) : Type 0 where
    pub polls : Lasts conf.polling_interval c.polling_nanoseconds
    pub pauses : Lasts conf.attempt_interval c.attempt_nanoseconds
    pub limits : IsPositive conf.attempt_limit c.settings.attempt_limit
    pub flies : IsPositive conf.max_in_flight c.settings.max_in_flight
    pub counts_canaries : conf.canaries ≡ pos c.canary_number

  lasts :
      (message : String) (z kept : ℤ)
      → ((n : ℕ) → z ≡ pos n → n ≤ longest)
      → and_then (positive message z) (λ n. ok (nanoseconds n)) ≡ ok kept
      → Lasts z kept
  lasts message z kept short e =
      let (n, p, q) = and_then-ok (positive message z) (λ n. ok (nanoseconds n)) kept e in
      let (is, above) = positive-ok message z n p in
      let same : nanoseconds n ≡ kept = cc in
      (n, is, above, sym same ∙ nanoseconds_lem n (short n is))

  -- A configuration that is let through has an attempt limit and a maxInFlight above zero, which the
  -- iterator gets as they are, a number of canaries that is not negative, and intervals above zero,
  -- which are kept in nanoseconds without wrapping round. This holds where the intervals are
  -- at most 9223372036 seconds.
  pub new_configurator-bounds :
      (c : Configured)
      → ((n : ℕ) → conf.polling_interval ≡ pos n → n ≤ longest)
      → ((n : ℕ) → conf.attempt_interval ≡ pos n → n ≤ longest)
      → new_configurator append_certs conf ≡ ok c
      → IsKept c
  unfolding new_configurator polling_interval attempt_interval attempt_limit max_in_flight canaries
  new_configurator-bounds c short_polling short_attempt e =
      let (u, e0, r0) = and_then-ok (broker_services append_certs conf) _ c e in
      let (p, e1, r1) = and_then-ok (polling_interval conf) _ c r0 in
      let (a, e2, r2) = and_then-ok (attempt_interval conf) _ c r1 in
      let (l, e3, r3) = and_then-ok (attempt_limit conf) _ c r2 in
      let (m, e4, r4) = and_then-ok (max_in_flight conf) _ c r3 in
      let (k, e5, r5) = and_then-ok (canaries conf) _ c r4 in
      subst IsKept (kept-eq r5) (record {
        polls = lasts _ conf.polling_interval p short_polling e1;
        pauses = lasts _ conf.attempt_interval a short_attempt e2;
        limits = positive-ok _ conf.attempt_limit l e3;
        flies = positive-ok _ conf.max_in_flight m e4;
        counts_canaries = not_negative-ok conf.canaries k e5;
      })
    where
      kept-eq : {x : Configured} → ◌≡◌ {A = Result Configured} (ok x) (ok c) → x ≡ c
      kept-eq h = cc
