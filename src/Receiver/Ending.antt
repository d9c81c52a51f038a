-- ===== src/Receiver/Ending.antt =====
-- How a delivery to a receiver ends that fails a number of requests first.
use webhook_delivery_service.Base.{
  ltb-true, leb-true, leb-false, ltb-true, leb-true, leb-false, ℕ, zero, suc, ◌+◌, ◌≤◌, ◌<◌, ◌≡◌,
  refl, ap, ◌∙◌, sym, subst, ◌⊎◌, Bool, false, none, some, List, arith, min, ltb, leb,
  if◌then◌else◌, Bool-cases, inl, inr,
}
use webhook_delivery_service.Models.{Delivery, pending, success, exhausted}
use webhook_delivery_service.Queries.{is_pending}
use webhook_delivery_service.Delivery.Attempt.{response, status_of_code}
use webhook_delivery_service.Receiver.{
  Reply as Outgoing, Entry, Receiver, receive_webhook, update_config,
}
use webhook_delivery_service.Receiver.Flaky.{responding}
use webhook_delivery_service.Receiver.Delivered.{
  post_timeout_ms, Setting, reply_of, attempt_against, deliver_against,
}
use webhook_delivery_service.Receiver.Exchange.{
  Answers, fails_once, recovers_once, retried, given_up, succeeded,
}

below_or_equal : (count f : ℕ) → count ≤ f → (count < f) ⊎ (count ≡ f)
below_or_equal count f h = elim (Bool-cases (ltb count f)) [
  | inl below ↦ inl (ground (arith, below))
  | inr other ↦ inr (ground (arith, other, h))
]

module _ (setting : Setting) (code delay : ℕ) (good : status_of_code code ≡ success)
    (quick : delay < post_timeout_ms) where
  reply_in_time :
      (out : Receiver × Outgoing) (status : ℕ) (next : List Entry → Receiver)
      → Answers out status delay next
      → reply_of setting out.1 ≡ response status (setting.render out.1.body)
  reply_in_time out status next a = rw (a.wait, ltb-true delay post_timeout_ms quick, a.status) refl

  stays :
      (k n : ℕ) (r : Receiver) (d : Delivery)
      → is_pending d.status ≡ false
      → deliver_against setting k n r d ≡ (r, d)
  unfolding deliver_against
  stays zero n r d h = refl
  stays (suc k) n r d h = rw h refl

  -- The end of a delivery whose endpoint fails `f` times first.
  abbrev Ends : ℕ → Delivery → Type 0
  Ends f d =
      (d.status ≡ (if leb f 3 then success else exhausted)) × (d.attempt_number ≡ min (f + 1) 4)

  abbrev first_out : ℕ → Receiver → Receiver × Outgoing
  first_out n r = receive_webhook (setting.incoming n) r

  -- The attempt that succeeds.
  recovery-Ends :
      (k n f : ℕ) (es : List Entry) (d : Delivery)
      → f ≤ 3
      → d.attempt_number ≡ f
      → Ends f
          (deliver_against setting k
            (suc n)
            (first_out n (responding es code delay f f)).0
            (attempt_against setting n (responding es code delay f f) d).1).1
  recovery-Ends k n f es d few attempts =
      let r = responding es code delay f f in
      let a = recovers_once (setting.incoming n) es code delay f in
      let reply = reply_of setting (first_out n r).1 in
      let s =
        succeeded (setting.reading n) setting.request setting.tenant_id reply d code
          (setting.render (first_out n r).1.body) (reply_in_time (first_out n r) code _ a) good in
      let d' = (attempt_against setting n r d).1 in
      rw (stays k (suc n) (first_out n r).0 d' (ap is_pending s.0), leb-true f 3 few)
        (s.0, omega (arith, s.1, attempts))

  goes_on :
      (k n : ℕ) (r : Receiver) (d : Delivery)
      → d.status ≡ pending
      → deliver_against setting (suc k) n r d
        ≡ deliver_against setting k
            (suc n)
            (attempt_against setting n r d).0
            (attempt_against setting n r d).1
  unfolding deliver_against
  goes_on k n r d p =
      let next = attempt_against setting n r d in
      ap (λ b. if b then deliver_against setting k (suc n) next.0 next.1 else (r, d))
        (ap is_pending p)

  -- What one failed attempt leaves, when three retries have not been spent.
  retry-Ends :
      (k n f count : ℕ) (es : List Entry) (d : Delivery)
      → count ≤ 2
      → count < f
      → d.attempt_number ≡ count
      → ((es' : List Entry) (d' : Delivery)
          → d'.status ≡ pending
          → d'.attempt_number ≡ count + 1
          → Ends f
              (deliver_against setting k (suc n) (responding es' code delay f (count + 1)) d').1)
      → Ends f
          (deliver_against setting k
            (suc n)
            (first_out n (responding es code delay f count)).0
            (attempt_against setting n (responding es code delay f count) d).1).1
  retry-Ends k n f count es d early more attempts later =
      let r = responding es code delay f count in
      let a = fails_once (setting.incoming n) es code delay f count more in
      let reply = reply_of setting (first_out n r).1 in
      let s =
        retried (setting.reading n) setting.request setting.tenant_id reply d
          (setting.render (first_out n r).1.body) (reply_in_time (first_out n r) 500 _ a)
          (omega (arith, early, attempts)) in
      let d' = (attempt_against setting n r d).1 in
      subst (λ r'. Ends f (deliver_against setting k (suc n) r' d').1) (sym a.state)
        (later a.entries d' s.0 (s.1 ∙ ap (λ m. m + 1) attempts))

  -- The last attempt, when it fails.
  last-Ends :
      (k n f : ℕ) (es : List Entry) (d : Delivery)
      → 3 < f
      → d.attempt_number ≡ 3
      → Ends f
          (deliver_against setting k
            (suc n)
            (first_out n (responding es code delay f 3)).0
            (attempt_against setting n (responding es code delay f 3) d).1).1
  last-Ends k n f es d more attempts =
      let r = responding es code delay f 3 in
      let a = fails_once (setting.incoming n) es code delay f 3 more in
      let reply = reply_of setting (first_out n r).1 in
      let s =
        given_up (setting.reading n) setting.request setting.tenant_id reply d
          (setting.render (first_out n r).1.body) (reply_in_time (first_out n r) 500 _ a)
          attempts in
      let d' = (attempt_against setting n r d).1 in
      rw (stays k (suc n) (first_out n r).0 d' (ap is_pending s.0), leb-false f 3 more)
        (s.0, omega (arith, s.1, more))

  -- The last failure that is retried, or the last attempt.
  round-Ends :
      (k n f count : ℕ) (es : List Entry) (d : Delivery)
      → count + suc k ≡ 4
      → count ≤ f
      → d.status ≡ pending
      → d.attempt_number ≡ count
      → ((es' : List Entry) (d' : Delivery)
          → count ≤ 2
          → count < f
          → d'.status ≡ pending
          → d'.attempt_number ≡ count + 1
          → Ends f
              (deliver_against setting k (suc n) (responding es' code delay f (count + 1)) d').1)
      → Ends f (deliver_against setting (suc k) n (responding es code delay f count) d).1
  round-Ends k n f count es d total le p attempts later =
      subst (λ out. Ends f out.1) (sym (goes_on k n (responding es code delay f count) d p))
        (elim (below_or_equal count f le) [
          | inr same ↦
              subst
                (λ c.
                  Ends f
                    (deliver_against setting k (suc n)
                      (first_out n (responding es code delay f c)).0
                      (attempt_against setting n (responding es code delay f c) d).1).1)
                (sym same) (recovery-Ends k n f es d (omega (arith, same, total)) (attempts ∙ same))
          | inl more ↦ elim (below_or_equal count 3 (omega (arith, total))) [
            | inl early ↦
                retry-Ends k n f count es d (omega (arith, early)) more attempts
                  (λ es' d'. later es' d' (omega (arith, early)) more)
            | inr last ↦
                subst
                  (λ c.
                    Ends f
                      (deliver_against setting k (suc n)
                        (first_out n (responding es code delay f c)).0
                        (attempt_against setting n (responding es code delay f c) d).1).1)
                  (sym last) (last-Ends k n f es d (omega (arith, last, more)) (attempts ∙ last))
          ]
        ])

  rest-Ends :
      (k n f count : ℕ) (es : List Entry) (d : Delivery)
      → count + suc k ≡ 4
      → count ≤ f
      → d.status ≡ pending
      → d.attempt_number ≡ count
      → Ends f (deliver_against setting (suc k) n (responding es code delay f count) d).1
  rest-Ends zero n f count es d total le p attempts =
      round-Ends zero n f count es d total le p attempts
        (λ es' d' early _ _ _. absurd (omega (arith, early, total)))
  rest-Ends (suc k) n f count es d total le p attempts =
      round-Ends (suc k) n f count es d total le p attempts (λ es' d' early more p' attempts'.
        rest-Ends k (suc n) f (count + 1) es' d' (omega (arith, total)) (omega (arith, more)) p'
          attempts')

-- A pending delivery without attempts is sent to the receiver, which is told to fail the next f requests, is not
-- silent, and otherwise answers with a 2xx status and within the ten seconds that the worker waits. Then four
-- attempts are enough to end the delivery. It is a success with f + 1 attempts if f is at most 3, and it is
-- exhausted with 4 attempts if f is more.
pub flaky_delivery_ends :
    (setting : Setting) (r : Receiver) (d : Delivery) (f : ℕ)
    → r.config.timeout_mode ≡ false
    → status_of_code r.config.status_code ≡ success
    → r.config.delay_ms < post_timeout_ms
    → d.status ≡ pending
    → d.attempt_number ≡ 0
    → let told =
        (update_config
          (record {
            status_code = none;
            delay_ms = none;
            fail_next_n = some f;
            timeout_mode = none;
          })
          r).0 in
      let ended = (deliver_against setting 4 0 told d).1 in
      (ended.status ≡ (if leb f 3 then success else exhausted))
      × (ended.attempt_number ≡ min (f + 1) 4)
unfolding update_config
flaky_delivery_ends setting r d f quiet good quick p attempts =
    let told : Bool → Receiver = λ silent. record {
      received_webhooks = r.received_webhooks;
      config = record {
        status_code = r.config.status_code;
        delay_ms = r.config.delay_ms;
        fail_next_n = f;
        timeout_mode = silent;
        fail_count = 0;
      };
    } in
    subst
      (λ silent.
        Ends setting r.config.status_code r.config.delay_ms good quick f
          (deliver_against setting 4 0 (told silent) d).1)
      (sym quiet)
      (rest-Ends setting r.config.status_code r.config.delay_ms good quick 3 0 f 0
        r.received_webhooks d refl (omega arith) p attempts)
