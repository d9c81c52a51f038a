-- ===== src/LoadTest/Waiting.antt =====
-- The wait of the script ends.
use webhook_delivery_service.Base.{
  ℕ, zero, suc, ◌+◌, ◌*◌, ◌≤◌, ◌≡◌, refl, arith, Bool, true, ◌||◌, Option, some, List, String, ◌⊎◌,
  leb, inl, inr, Bool-cases,
}
use webhook_delivery_service.Models.{Uuid, Tenant}
use webhook_delivery_service.Errors.{ok}
use webhook_delivery_service.Database.{Database}
use webhook_delivery_service.Database.Valid.{IsValid}
use webhook_delivery_service.Tenants.{get_current_tenant}
use webhook_delivery_service.Api.{Context}
use webhook_delivery_service.LoadTest.{
  Outcome, ended, Counter, terminal, fetch_delivery_status_counts, Waited, wait_for_deliveries,
}
use webhook_delivery_service.LoadTest.Counts.{fetch_counts_all}

module _ (c : Context) (api_key : String) (event_ids : List Uuid) (tenant : Tenant)
    (expected_deliveries delivery_timeout poll_interval : ℕ) (tables : ℕ → Database)
    (elapsed : ℕ → ℕ) where
  -- The round that ends the wait: its counts, and that enough deliveries ended or the time is over.
  pub record HasEnded (last : ℕ) (out : Option (Outcome Waited)) : Type 0 where
    pub round : ℕ
    pub counts : Counter
    pub in_time : round ≤ last
    pub output : out ≡ some (ended (counts, elapsed round))
    pub counted :
        fetch_delivery_status_counts c (tables round) api_key event_ids ≡ some (ended counts)
    pub reason : (expected_deliveries ≤ terminal counts) ⊎ (delivery_timeout ≤ elapsed round)

  module _ (valid : (i : ℕ) → IsValid (tables i))
      (known : (i : ℕ) → get_current_tenant (tables i) (some api_key) ≡ ok tenant)
      (ticks : (i : ℕ) → elapsed i + poll_interval ≤ elapsed (suc i)) where
    abbrev is_over : ℕ → Counter → Bool
    is_over i counts = leb expected_deliveries (terminal counts) || leb delivery_timeout (elapsed i)

    -- A round that is the last one.
    end_at :
        (fuel i last : ℕ) (counts : Counter)
        → i ≤ last
        → fetch_delivery_status_counts c (tables i) api_key event_ids ≡ some (ended counts)
        → is_over i counts ≡ true
        → HasEnded last (
            wait_for_deliveries c api_key event_ids expected_deliveries delivery_timeout tables
              elapsed
              (suc fuel)
              i)
    unfolding wait_for_deliveries
    end_at fuel i last counts in_time counted over = record {
      round = i;
      counts = counts;
      in_time = in_time;
      output = rw (counted, over) refl;
      counted = counted;
      reason = ground (arith, over);
    }

    wait_from :
        (fuel i last : ℕ)
        → i + fuel ≤ last
        → delivery_timeout ≤ elapsed i + fuel * poll_interval
        → HasEnded last (
            wait_for_deliveries c api_key event_ids expected_deliveries delivery_timeout tables
              elapsed
              (suc fuel)
              i)
    unfolding wait_for_deliveries
    wait_from zero i last le h =
        let found = fetch_counts_all c (tables i) api_key event_ids tenant (known i) (valid i) in
        end_at zero i last found.0 (omega arith) found.1 (ground (arith, h))
    wait_from (suc fuel) i last le h =
        let found = fetch_counts_all c (tables i) api_key event_ids tenant (known i) (valid i) in
        elim (Bool-cases (is_over i found.0)) [
          | inl over ↦ end_at (suc fuel) i last found.0 (omega (arith, le)) found.1 over
          | inr more ↦
              rw (found.1, more)
                (wait_from fuel (suc i) last (omega (arith, le)) (grind (arith, h, ticks i)))
        ]

    -- With a clock that moves by the poll interval or more in each round, on well-formed tables in which
    -- the key is the tenant's, the wait returns after at most `rounds` further rounds, for each number of
    -- rounds that takes as long as the timeout: enough deliveries have ended, or the time is over.
    pub wait_ends :
        (rounds : ℕ)
        → delivery_timeout ≤ rounds * poll_interval
        → HasEnded rounds (
            wait_for_deliveries c api_key event_ids expected_deliveries delivery_timeout tables
              elapsed
              (suc rounds)
              0)
    wait_ends rounds h = wait_from rounds 0 rounds (omega arith) (omega (arith, h))
