-- ===== src/Receiver/Bounds.antt =====
-- The size of the receiver's log.
use webhook_delivery_service.Base.{
  suc, ◌+◌, ◌≤◌, Bool, true, false, if◌then◌else◌, ltb, leb, List, [], ◌∷◌, arith, take, length,
  length-take,
}
use webhook_delivery_service.Receiver.{
  Incoming, max_log_size, Entry, Reply, Receiver, receive_webhook, clear_webhooks, ConfigUpdate,
  update_config, reset_config,
}

-- The requests that change the receiver.
pub data Request : Type 0 where
  webhook : Incoming → Request
  clear reset : Request
  configure : ConfigUpdate → Request

unfoldable pub serve : Request → Receiver → Receiver
unfolding receive_webhook clear_webhooks update_config reset_config
serve (webhook content) r = (receive_webhook content r).0
serve clear r = clear_webhooks r
serve reset r = (reset_config r).0
serve (configure u) r = (update_config u r).0

unfoldable pub serve_all : List Request → Receiver → Receiver
serve_all [] r = r
serve_all (q ∷ qs) r = serve_all qs (serve q r)

taken-short : (es : List Entry) → suc (length (take 499 es)) ≤ max_log_size
taken-short es = omega (arith, length-take 499 es)

abbrev IsShort : Receiver × Reply → Type 0
IsShort out = length out.0.received_webhooks ≤ max_log_size

if-IsShort :
    (b : Bool) (x y : Receiver × Reply) → IsShort x → IsShort y → IsShort (if b then x else y)
if-IsShort true x y h k = h
if-IsShort false x y h k = k

serve-short :
    (q : Request) (r : Receiver)
    → length r.received_webhooks ≤ max_log_size
    → length (serve q r).received_webhooks ≤ max_log_size
unfolding serve receive_webhook clear_webhooks update_config reset_config
serve-short (webhook content) r h =
    let short = taken-short r.received_webhooks in
    if-IsShort r.config.timeout_mode _ _ short (
      if-IsShort (ltb 0 r.config.fail_next_n) _ _
        (if-IsShort (leb (r.config.fail_count + 1) r.config.fail_next_n) _ _ short short) short)
serve-short clear r h = omega arith
serve-short reset r h = h
serve-short (configure u) r h = h

-- Whatever requests the receiver serves, its log never holds more than 500 entries, if it starts with no more.
pub serve_all-short :
    (qs : List Request) (r : Receiver)
    → length r.received_webhooks ≤ max_log_size
    → length (serve_all qs r).received_webhooks ≤ max_log_size
unfolding serve_all
serve_all-short [] r h = h
serve_all-short (q ∷ qs) r h = serve_all-short qs (serve q r) (serve-short q r h)
