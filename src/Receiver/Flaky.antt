-- ===== src/Receiver/Flaky.antt =====
-- The mode in which the receiver fails a number of requests and then recovers.
use webhook_delivery_service.Base.{
  ℕ, ◌+◌, subst, ◌<◌, ◌≡◌, refl, ap, ◌∙◌, false, none, some, List, [], ◌∷◌, ◌++◌, map, length,
  arith, ltb-true, leb-true, leb-false,
}
use webhook_delivery_service.Receiver.{Incoming, Entry, Receiver, receive_webhook, update_config}

-- The status codes of the replies to a sequence of requests.
unfoldable pub statuses : List Incoming → Receiver → List ℕ
statuses [] r = []
statuses (content ∷ cs) r =
    (receive_webhook content r).1.status_code ∷ statuses cs (receive_webhook content r).0

-- A receiver that answers, with `count` of its `failures` used.
abbrev pub responding : List Entry → ℕ → ℕ → ℕ → ℕ → Receiver
responding entries status delay failures count = record {
  received_webhooks = entries;
  config = record {
    status_code = status;
    delay_ms = delay;
    fail_next_n = failures;
    timeout_mode = false;
    fail_count = count;
  };
}

recovered :
    (cs : List Incoming) (entries : List Entry) (status delay count : ℕ)
    → statuses cs (responding entries status delay 0 count) ≡ map (λ _. status) cs
unfolding statuses receive_webhook
recovered [] entries status delay count = refl
recovered (content ∷ cs) entries status delay count =
    ap (λ l. status ∷ l) (recovered cs _ status delay count)

fails_first :
    (content : Incoming) (cs : List Incoming) (entries : List Entry) (status delay n count : ℕ)
    → count < n
    → (entries' : List Entry) × (statuses (content ∷ cs) (responding entries status delay n count)
        ≡ 500 ∷ statuses cs (responding entries' status delay n (count + 1)))
unfolding statuses receive_webhook
fails_first content cs entries status delay n count h = (
  (receive_webhook content (responding entries status delay n count)).0.received_webhooks,
  rw (ltb-true 0 n (omega arith), leb-true (count + 1) n (omega arith)) refl,
)

recovers_next :
    (cs : List Incoming) (entries : List Entry) (status delay n : ℕ)
    → 0 < n
    → statuses cs (responding entries status delay n n) ≡ map (λ _. status) cs
unfolding statuses receive_webhook
recovers_next [] entries status delay n h = refl
recovers_next (content ∷ cs) entries status delay n h =
    rw (ltb-true 0 n h, leb-false (n + 1) n (omega arith))
      (ap (λ l. status ∷ l) (recovered cs _ status delay 0))

counts_down :
    (xs ys : List Incoming) (entries : List Entry) (status delay n count : ℕ)
    → 0 < n
    → count + length xs ≡ n
    → statuses (xs ++ ys) (responding entries status delay n count)
      ≡ map (λ _. 500) xs ++ map (λ _. status) ys
counts_down [] ys entries status delay n count h total =
    subst (λ c. statuses ys (responding entries status delay n c) ≡ map (λ _. status) ys)
      (omega arith) (recovers_next ys entries status delay n h)
counts_down (x ∷ xs) ys entries status delay n count h total =
    let (entries', first) = fails_first x (xs ++ ys) entries status delay n count (omega arith) in
    first
    ∙ ap (λ l. 500 ∷ l) (counts_down xs ys entries' status delay n (count + 1) h (omega arith))

-- A receiver that is not silent and is told to fail the next n requests, n > 0, answers exactly the next n
-- with 500 and every one after them with the configured status code, whatever was counted before.
pub fail_next_n_then_recover :
    (r : Receiver) (n : ℕ) (xs ys : List Incoming)
    → r.config.timeout_mode ≡ false
    → 0 < n
    → length xs ≡ n
    → statuses
        (xs ++ ys)
        (update_config
          (record {
            status_code = none;
            delay_ms = none;
            fail_next_n = some n;
            timeout_mode = none;
          })
          r).0
      ≡ map (λ _. 500) xs ++ map (λ _. r.config.status_code) ys
unfolding update_config
fail_next_n_then_recover r n xs ys quiet h total =
    ap
      (λ b.
        statuses (xs ++ ys)
          (record (responding r.received_webhooks r.config.status_code r.config.delay_ms n 0) {
            config = record {
              status_code = r.config.status_code;
              delay_ms = r.config.delay_ms;
              fail_next_n = n;
              timeout_mode = b;
              fail_count = 0;
            };
          }))
      quiet
    ∙ counts_down xs ys r.received_webhooks r.config.status_code r.config.delay_ms n 0 h
        (omega arith)
