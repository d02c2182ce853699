-- ===== src/Connection/Close/Laws.antt =====
-- What `Close` guarantees, and what becomes of the goroutine.
use dp_mongodb.Base.{ℕ, ◌≡◌, ◌≢◌, ◌⊎◌, refl, Bool, true, false, Option, arith}
use dp_mongodb.Connection.Close.{
  Result, ok, Closer, starting, selecting, stopping, draining, returned, Worker, disconnecting,
  sending, sent, panicked, State, init, Step, tick, start, fire, fire_late, finish, disconnected,
  hand_over, time_out, context_done, stop, too_late, drain, panic, Reach, here, next,
}

abbrev is_ok : Result → Bool
is_ok ok = true
is_ok _ = false

abbrev is_returned : Closer → Bool
is_returned (returned r) = true
is_returned _ = false

-- `Close` has got the value of the goroutine.
abbrev has_value : Closer → Bool
has_value starting = false
has_value selecting = false
has_value (stopping r) = is_ok r
has_value (draining r) = is_ok r
has_value (returned r) = is_ok r

abbrev is_sent : Worker → Bool
is_sent sent = true
is_sent _ = false

pub record Inv (s : State) : Type 0 where
  pub shut : s.channel_closed ≡ is_returned s.closer
  pub handed_over : is_sent s.worker ≡ has_value s.closer
  pub full : (r : Result) → s.closer ≡ draining r → s.fired ≡ true

pub init-Inv : (deadline : Option ℕ) (now : ℕ) → Inv (init deadline now)
init-Inv deadline now = record { shut = refl; handed_over = refl; full = (λ r e. cc e) }

Step-Inv : {o : Bool} {s t : State} → Step o s t → Inv s → Inv t
Step-Inv tick v = ground (arith, v.full)
Step-Inv (start a) v = ground (arith, v.full)
Step-Inv (fire a b) v = ground (arith, v.full)
Step-Inv (fire_late r a b) v = ground (arith, v.full)
Step-Inv (finish n a) v = ground (arith, v.full)
Step-Inv (disconnected a) v = ground (arith, v.full)
Step-Inv (hand_over a b) v = ground (arith, v.full)
Step-Inv (time_out a b) v = ground (arith, v.full)
Step-Inv (context_done n a b) v = ground (arith, v.full)
Step-Inv (stop r a b) v = ground (arith, v.full)
Step-Inv (too_late r a b) v = ground (arith, v.full)
Step-Inv (drain r a b) v = ground (arith, v.full)
Step-Inv (panic a b) v = ground (arith, v.full)

pub Reach-Inv : {o : Bool} {s t : State} → Inv s → Reach o s t → Inv t
Reach-Inv v here = v
Reach-Inv v (next r st) = Step-Inv st (Reach-Inv v r)

stays :
    {o : Bool} {s t : State} (r : Result)
    → Step o s t
    → s.closer ≡ returned r
    → t.closer ≡ returned r
stays r tick e = e
stays r (start a) e = cc
stays r (fire a b) e = cc
stays r (fire_late q a b) e = cc
stays r (finish n a) e = e
stays r (disconnected a) e = e
stays r (hand_over a b) e = cc
stays r (time_out a b) e = cc
stays r (context_done n a b) e = cc
stays r (stop q a b) e = cc
stays r (too_late q a b) e = cc
stays r (drain q a b) e = cc
stays r (panic a b) e = e

stays_returned :
    {o : Bool} {s t : State} (r : Result)
    → Reach o s t
    → s.closer ≡ returned r
    → t.closer ≡ returned r
stays_returned r here e = e
stays_returned r (next p st) e = stays r st (stays_returned r p e)

-- Once `Close` has returned nil, from then on the goroutine is past its send, which it comes to after
-- `Disconnect` has returned, and has not panicked.
pub nil_disconnected :
    (o : Bool) (deadline : Option ℕ) (now : ℕ) {s t : State}
    → Reach o (init deadline now) s
    → s.closer ≡ returned ok
    → Reach o s t
    → t.worker ≡ sent
nil_disconnected o deadline now r e p =
    let v = Reach-Inv (Reach-Inv (init-Inv deadline now) r) p in
    let c = stays_returned ok p e in ground (arith, v.handed_over)

-- Once `Close` has returned an error, in every state from then on in which `Disconnect` has returned
-- the goroutine has panicked, or is about to send on a closed channel.
pub error_panics :
    (o : Bool) (deadline : Option ℕ) (now : ℕ) {s t : State} (result : Result)
    → Reach o (init deadline now) s
    → s.closer ≡ returned result
    → result ≢ ok
    → Reach o s t
    → t.worker ≢ disconnecting
    → (t.worker ≡ panicked) ⊎ ((t.worker ≡ sending) × (t.channel_closed ≡ true))
error_panics o deadline now result r e failed p d =
    let v = Reach-Inv (Reach-Inv (init-Inv deadline now) r) p in
    let c = stays_returned result p e in ground (arith, v.handed_over, v.shut)

-- Where `Close` waits for the value of a timer that it could not stop, that value is there, so it
-- does not block.
pub close_drain_ready :
    (o : Bool) (deadline : Option ℕ) (now : ℕ) {s : State} (result : Result)
    → Reach o (init deadline now) s
    → s.closer ≡ draining result
    → s.fired ≡ true
close_drain_ready o deadline now result r e = (Reach-Inv (init-Inv deadline now) r).full result e
